-- ===== src/Start.antt =====
-- main.cpp and account.h, account.cpp: options, the configuration file, and what is ready when FUSE
-- takes over.
pub mod Hiding
pub mod Launch
pub mod Options
use marc_fs.Base.{
  [], ℕ, zero, ◌+◌, ◌-◌, ◌*◌, ◌^◌, Bool, true, false, not, ◌&&◌, ◌++◌, Option, none, some, List,
  ltb, leb, if◌then◌else◌, length, ℤ, pos, negsuc, u64_mod, Exc, failure, undefined, Result, ok,
  fail, Text, codes,
}
use marc_fs.CloudFile.{Json}
use marc_fs.ObjectPool.{ObjectPool, empty_pool, populate}
use marc_fs.Rest.Session.{
  copied, Http, Session, RestClient, set_proxy, set_max_download_rate, set_max_upload_rate,
}
use marc_fs.Rest.Login.{log_in}
use marc_fs.Start.Hiding.{hide_sensitive}

-- `MarcfsConfig`; a null pointer is `none`.
pub record MarcfsConfig : Type 0 where
  pub username : Option Text
  pub password : Option Text
  pub cachedir : Option Text
  pub conffile : Option Text
  pub proxyurl : Option Text
  pub max_download_rate : ℤ
  pub max_upload_rate : ℤ

pub record Account : Type 0 where
  pub login : Text
  pub password : Text

abbrev no_account : Account
no_account = record { login = []; password = [] }

unfoldable pub get_login : Account → Text
get_login a = a.login

unfoldable pub set_login : Text → Account → Account
set_login value a = record a { login = value }

unfoldable pub get_password : Account → Text
get_password a = a.password

unfoldable pub set_password : Text → Account → Account
set_password value a = record a { password = value }

abbrev pub is_unset : ℤ → Bool
is_unset (pos zero) = true
is_unset _ = false

module _ (J : Json) where
  -- `asCString` of jsoncpp throws where the value is no string.
  unfoldable pub text_option :
      (J.Value → Option Text) → J.Value → Text → Option Text → Result (Option Text)
  text_option as_c_string config name (some t) = ok (some t)
  text_option as_c_string config name none =
      let value = J.member config name in
      if J.has_members config
      then (if J.is_null value
          then ok none
          else elim (as_c_string value) [ none ↦ fail failure | some t ↦ ok (some t) ])
      else fail failure

  unfoldable pub rate_option : J.Value → Text → ℤ → Result ℤ
  rate_option config name rate =
      let value = J.member config name in
      if is_unset rate && not (J.has_members config)
      then fail failure
      else if is_unset rate && not (J.is_null value)
      then elim (J.as_int64 value) [ none ↦ fail failure | some r ↦ ok r ]
      else ok rate

  abbrev pub and_then : {A B : Type 0} → Result A → (A → Result B) → Result B
  and_then (ok a) f = f a
  and_then (fail e) f = fail e

  -- The options that the command line left open.
  unfoldable pub fill_config :
      (J.Value → Option Text) → J.Value → MarcfsConfig → Result MarcfsConfig
  fill_config as_c_string config c =
      and_then (text_option as_c_string config (codes "username") c.username) (λ user.
        and_then (text_option as_c_string config (codes "password") c.password) (λ word.
          and_then (text_option as_c_string config (codes "cachedir") c.cachedir) (λ dir.
            and_then (text_option as_c_string config (codes "proxyurl") c.proxyurl) (λ proxy.
              and_then (rate_option config (codes "max-download-rate") c.max_download_rate) (λ down.
                and_then (rate_option config (codes "max-upload-rate") c.max_upload_rate) (λ up.
                  ok (record c {
                    username = user;
                    password = word;
                    cachedir = dir;
                    proxyurl = proxy;
                    max_download_rate = down;
                    max_upload_rate = up;
                  })))))))

  -- Where the file lies. `home` is the directory of the user.
  unfoldable pub config_path : Text → MarcfsConfig → Text
  config_path home c = elim c.conffile [
    | some path ↦ path
    | none ↦ home ++ codes "/.config/marcfs/config.json"
  ]

  -- A file that is not JSON is passed over.
  abbrev pub with_value :
      (J.Value → Option Text) → MarcfsConfig → Option J.Value → Result MarcfsConfig
  with_value as_c_string c none = ok c
  with_value as_c_string c (some config) = fill_config as_c_string config c

  -- So is one that does not open.
  abbrev pub with_content :
      (J.Value → Option Text)
      → (Text → Option J.Value)
      → MarcfsConfig
      → Option Text
      → Result MarcfsConfig
  with_content as_c_string parse c none = ok c
  with_content as_c_string parse c (some content) = with_value as_c_string c (parse content)

  -- `load_file` gives the content of a file that opens, and `parse` the value of a text that is JSON.
  unfoldable pub load_config_file :
      (J.Value → Option Text)
      → (Text → Option Text)
      → (Text → Option J.Value)
      → Text
      → MarcfsConfig
      → Result MarcfsConfig
  load_config_file as_c_string load_file parse home c =
      with_content as_c_string parse c (load_file (config_path home c))

-- What `fuse_opt_parse` makes of the arguments, by the table `marcfsOpts`: one of the two keys without
-- a value, which come to `marcfs_opt_proc`, an error, or the values.
pub data Parsed : Type 0 where
  key_help : Parsed
  key_version : Parsed
  refused : Parsed
  options : MarcfsConfig → Parsed

-- The process ends with a code, it dies by an exception or worse, or FUSE runs, with the arguments as
-- other processes see them, the pool of clients and the cache directory.
pub data Outcome : Type 0 where
  exited : ℕ → Outcome
  crashed : Exc → Outcome
  started : List Text → ObjectPool RestClient → Text → Outcome

abbrev pub fresh_client : RestClient
fresh_client = record {
  proxy_url = [];
  max_upload_rate = 0;
  max_download_rate = 0;
  login = [];
  password = [];
  act_token = [];
  csrf_token = [];
}

-- `rate * 1024` of type `long`, as `uint64_t`. An overflow of `long` is undefined.
unfoldable pub in_bytes : ℤ → Option ℕ
in_bytes (pos n) = if ltb (n * 1024) (2 ^ 63) then some (n * 1024) else none
in_bytes (negsuc n) =
    if leb ((n + 1) * 1024) (2 ^ 63) then some (u64_mod - (n + 1) * 1024) else none

unfoldable pub with_proxy : Option Text → RestClient → RestClient
with_proxy none rc = rc
with_proxy (some url) rc = set_proxy url rc

abbrev set_if : Option ℕ → (ℕ → RestClient → RestClient) → RestClient → Option RestClient
set_if none set rc = none
set_if (some bytes) set rc = some (set bytes rc)

unfoldable pub with_rate : (ℕ → RestClient → RestClient) → ℤ → RestClient → Option RestClient
with_rate set rate rc = if is_unset rate then some rc else set_if (in_bytes rate) set rc

abbrev pub then_set : Option RestClient → (RestClient → Option RestClient) → Option RestClient
then_set none f = none
then_set (some rc) f = f rc

-- The client that logs in.
unfoldable pub first_client : MarcfsConfig → Option RestClient
first_client c =
    then_set
      (with_rate set_max_download_rate c.max_download_rate (with_proxy c.proxyurl fresh_client))
      (with_rate set_max_upload_rate c.max_upload_rate)

module _ (H : Http) (is_directory : Text → Bool) where
  unfoldable pub with_cache_dir : Option Text → List Text → ObjectPool RestClient → Outcome
  with_cache_dir none args pool = started args pool []
  with_cache_dir (some dir) args pool = if is_directory dir then started args pool dir else exited 1

  abbrev pub after_login :
      Option Text → List Text → Result (Unit {0}) × Session H → Outcome × H.World
  after_login dir args (fail e, (rc, w)) = (crashed e, w)
  after_login dir args (ok _, (rc, w)) =
      (with_cache_dir dir args (populate (copied rc) 25 empty_pool), w)

  -- The login, the pool and the cache directory, with the arguments and the client as they are by then.
  abbrev pub launched :
      MarcfsConfig
      → Text
      → Text
      → Option (List Text)
      → Option RestClient
      → H.World
      → Outcome × H.World
  launched c user word none rc w = (crashed undefined, w)
  launched c user word (some hidden) none w = (crashed undefined, w)
  launched c user word (some hidden) (some rc) w =
      let acc = set_password word (set_login user no_account) in
      after_login c.cachedir hidden (log_in H (get_login acc) (get_password acc) (rc, w))

  -- From the check of the credentials to the start of FUSE.
  unfoldable pub prepare : List Text → MarcfsConfig → Text → Text → H.World → Outcome × H.World
  prepare args c user word w = launched c user word (hide_sensitive args) (first_client c) w

  unfoldable pub with_credentials :
      List Text → MarcfsConfig → Option Text → Option Text → H.World → Outcome × H.World
  with_credentials args c none word w = (exited 3, w)
  with_credentials args c (some user) none w = (exited 3, w)
  with_credentials args c (some user) (some word) w = prepare args c user word w

  abbrev pub configured : List Text → Result MarcfsConfig → H.World → Outcome × H.World
  configured args (fail e) w = (crashed e, w)
  configured args (ok c) w = with_credentials args c c.username c.password w

  -- `marcfs_opt_proc` ends the process for both keys.
  unfoldable pub parsed_options :
      (MarcfsConfig → Result MarcfsConfig) → List Text → Parsed → H.World → Outcome × H.World
  parsed_options load args key_help w = (exited 1, w)
  parsed_options load args key_version w = (exited 0, w)
  parsed_options load args refused w = (exited 2, w)
  parsed_options load args (options c) w = configured args (load c) w

  unfoldable pub main :
      (List Text → Parsed)
      → (MarcfsConfig → Result MarcfsConfig)
      → List Text
      → H.World
      → Outcome × H.World
  main fuse_opt_parse load args w =
      if ltb (length args) 2
      then (exited 1, w)
      else parsed_options load args (fuse_opt_parse args) w
