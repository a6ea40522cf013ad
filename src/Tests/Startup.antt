-- ===== src/Tests/Startup.antt =====
-- A start with concrete arguments, over a server whose every answer sets a cookie.
use marc_fs.Base.{
  ℕ, zero, suc, ◌+◌, ◌<◌, ◌≡◌, refl, ap, Bool, true, false, Option, none, some, List, [], ◌∷◌, ◌++◌,
  inl, inr, arith, length, replicate, pos, ok, Result, Text, codes,
}
use marc_fs.ObjectPool.{empty_pool, populate}
use marc_fs.Rest.Session.{Http, Session, RestClient, answered}
use marc_fs.Start.{MarcfsConfig, Parsed, options, started, main, config_path, load_config_file}
use marc_fs.Start.Hiding.{user_key, password_key, hide_argument}
use marc_fs.Start.Hiding.Laws.{hide_argument-two_given}
use marc_fs.Start.Options.{load_config_file-first}
use marc_fs.Start.Launch.{IsReady, main-IsReady}
use marc_fs.Tests.Web.{web_json}

hide_argument-two_given_example :
    hide_argument (codes "-ousername=ann,password=xy") ≡ some (codes "-ousername=***,password=**")
unfolding marc_fs.Start.Hiding.find
hide_argument-two_given_example =
    hide_argument-two_given (codes "-o") user_key (codes "ann") 44 password_key (codes "xy")
      (inl (refl, refl)) refl refl (omega arith)

abbrev from_line : MarcfsConfig
from_line = record {
  username = some (codes "ann");
  password = none;
  cachedir = none;
  conffile = some (codes "file");
  proxyurl = none;
  max_download_rate = pos 8;
  max_upload_rate = pos 0;
}

-- Every value of this file is its own name, and every number 0.
load_config_file-first_example :
    load_config_file web_json (λ v. some v) (λ path. some path) (λ t. some t) [] from_line
    ≡ ok (record {
      username = some (codes "ann");
      password = some (codes "password");
      cachedir = some (codes "cachedir");
      conffile = some (codes "file");
      proxyurl = some (codes "proxyurl");
      max_download_rate = pos 8;
      max_upload_rate = pos 0;
    })
unfolding config_path
load_config_file-first_example =
    load_config_file-first web_json (λ v. some v) (codes "file") (λ path. some path) (λ t. some t)
      [] (codes "file") from_line refl refl refl (inr (codes "username", refl))
      (inr (codes "password", refl)) (inr (codes "cachedir", refl)) (inr (codes "proxyurl", refl))
      (inr (pos 0, refl)) (inr (pos 0, refl))

abbrev counting : Http
counting = record {
  World = ℕ;
  perform = λ r w. (answered 200 (codes "\"csrf\":\"0123456789012345678901234567890123\""), w + 1);
  cookies = λ w. replicate w (codes "act" ++ (9 ∷ codes "7"));
  escape = λ t. t;
}

abbrev all_given : MarcfsConfig
all_given = record from_line { password = some (codes "xy"); cachedir = some (codes "/tmp") }

abbrev logged_in : RestClient
logged_in = record {
  proxy_url = [];
  max_upload_rate = 0;
  max_download_rate = 8192;
  login = codes "ann";
  password = codes "xy";
  act_token = codes "7";
  csrf_token = codes "0123456789012345678901234567890123";
}

abbrev line : List Text
line = codes "marcfs" ∷ (codes "-ousername=ann,password=xy" ∷ [])

abbrev shown_line : List Text
shown_line = codes "marcfs" ∷ (codes "-ousername=***,password=**" ∷ [])

starts :
    main counting (λ d. true) (λ args. options all_given) (λ c. ok c) line 0
    ≡ (started shown_line (populate logged_in 25 empty_pool) (codes "/tmp"), 3)
unfolding main marc_fs.Start.parsed_options marc_fs.Start.with_credentials marc_fs.Start.prepare
    marc_fs.Start.Hiding.hide_sensitive marc_fs.Start.Hiding.hide_all hide_argument
    marc_fs.Start.Hiding.hide_at marc_fs.Start.Hiding.find marc_fs.Start.Hiding.hide_sensitive_data
    marc_fs.Start.Hiding.rest_behind marc_fs.Base.Slices.overwrite marc_fs.Start.first_client
    marc_fs.Start.with_rate marc_fs.Start.in_bytes marc_fs.Rest.Login.log_in marc_fs.Start.get_login
    marc_fs.Rest.Login.act_cookie marc_fs.Rest.Login.authenticate marc_fs.Rest.Login.behind
    marc_fs.Rest.Login.csrf_of marc_fs.Rest.Login.open_cloud_page marc_fs.Rest.Login.open_main_page
    marc_fs.Rest.Login.up_to marc_fs.Rest.Session.action_result marc_fs.Rest.Session.perform_action
    marc_fs.Rest.Session.set_max_download_rate marc_fs.Start.get_password marc_fs.Start.set_login
    marc_fs.Start.set_password marc_fs.Start.with_cache_dir marc_fs.Start.with_proxy
    marc_fs.Rest.Login.last_column marc_fs.Paths.split_last
starts = refl

main-IsReady_example :
    (given c : MarcfsConfig) × (options all_given ≡ options given)
    × (ok given ≡ ok c)
    × IsReady counting
        (λ d. true)
        line
        c
        0
        shown_line
        (populate logged_in 25 empty_pool)
        (codes "/tmp")
        3
main-IsReady_example =
    main-IsReady counting (λ d. true) (λ args. options all_given) (λ c. ok c) line shown_line 0 3
      (populate logged_in 25 empty_pool) (codes "/tmp") starts
