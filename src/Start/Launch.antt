-- ===== src/Start/Launch.antt =====
-- What is ready when FUSE takes over.
use marc_fs.Base.{
  ℕ, zero, suc, ◌≡◌, refl, sym, ap, ◌∙◌, ◌⊎◌, inl, inr, Bool, true, false, Option, none, some, List,
  [], ◌∷◌, ◌++◌, map, arith, ltb, if◌then◌else◌, length, replicate, Result, ok, fail, Text,
  Bool-cases, subst, ℤ, pos, negsuc, ◌^◌, ◌-◌, leb, Option-cases, ◌*◌, ◌+◌, u64_mod,
}
use mathlib.Core.List.{append-nil, append_assoc}
use marc_fs.ObjectPool.{Object, ObjectPool, empty_pool, populate_one, populate}
use marc_fs.Rest.Session.{
  Http, Session, RestClient, set_proxy, set_max_download_rate, set_max_upload_rate,
}
use marc_fs.Rest.Login.{log_in}
use marc_fs.Rest.Login.Account.{settings, log_in-settings}
use marc_fs.Start.{
  MarcfsConfig, Parsed, key_help, key_version, refused, options, Outcome, exited, crashed, started,
  first_client, then_set, fresh_client, with_rate, with_proxy, in_bytes, with_cache_dir,
  after_login, launched, prepare, with_credentials, configured, parsed_options, main, get_login,
  set_login, get_password, set_password,
}
use marc_fs.Start.Hiding.{hide_sensitive}

abbrev values : {T : Type 0} → ObjectPool T → List T
values p = map (λ x. x.value) p.objects

values-append :
    {T : Type 0} (xs ys : List (Object T))
    → map (λ (x : Object T). x.value) (xs ++ ys) ≡ map (λ x. x.value) xs ++ map (λ x. x.value) ys
values-append [] ys = refl
values-append (x ∷ xs) ys = ap (λ zs. x.value ∷ zs) (values-append xs ys)

values-populate :
    {T : Type 0} (obj : T) (k : ℕ) (p : ObjectPool T)
    → values (populate obj k p) ≡ values p ++ replicate k obj
unfolding populate
values-populate obj zero p = sym (append-nil (values p))
values-populate obj (suc k) p =
    values-populate obj k (populate_one obj p)
    ∙ (ap (λ vs. vs ++ replicate k obj) (values-append p.objects _)
        ∙ append_assoc (values p) (obj ∷ []) (replicate k obj))

abbrev is_started : Outcome → Bool
is_started (exited _) = false
is_started (crashed _) = false
is_started (started _ _ _) = true

abbrev pub url_of : Option Text → Text
url_of none = []
url_of (some url) = url

-- A rate in kibibytes per second, as the client has it in bytes; a negative one wraps around.
abbrev pub IsRate : ℤ → ℕ → Type 0
IsRate (pos n) bytes = bytes ≡ n * 1024
IsRate (negsuc n) bytes = bytes + (n + 1) * 1024 ≡ u64_mod

IsEquipped : MarcfsConfig → RestClient → Type 0
IsEquipped c rc =
    (rc.proxy_url ≡ url_of c.proxyurl)
    × IsRate c.max_download_rate rc.max_download_rate
    × IsRate c.max_upload_rate rc.max_upload_rate

with_rate-IsRate :
    (set : ℕ → RestClient → RestClient) (rate : ℤ) (rc r : RestClient)
    → set 0 rc ≡ rc
    → with_rate set rate rc ≡ some r
    → (n : ℕ) × IsRate rate n × (r ≡ set n rc)
unfolding with_rate in_bytes
with_rate-IsRate set (pos zero) rc r idle e = (0, refl, cc)
with_rate-IsRate set (pos (suc k)) rc r idle e = elim (Bool-cases (ltb (suc k * 1024) (2 ^ 63))) [
  | inl small ↦ (suc k * 1024, refl, ground arith)
  | inr big ↦ absurd (ground arith)
]
with_rate-IsRate set (negsuc k) rc r idle e = elim (Bool-cases (leb ((k + 1) * 1024) (2 ^ 63))) [
  | inl small ↦ (u64_mod - (k + 1) * 1024, ground arith, ground arith)
  | inr big ↦ absurd (ground arith)
]

with_proxy-url :
    (o : Option Text) → with_proxy o fresh_client ≡ record fresh_client { proxy_url = url_of o }
unfolding with_proxy set_proxy
with_proxy-url none = refl
with_proxy-url (some url) = refl

-- The setters of the first client set what they are named for, and nothing else.
first_client-IsEquipped :
    (c : MarcfsConfig) (rc : RestClient) → first_client c ≡ some rc → IsEquipped c rc
unfolding first_client with_proxy set_proxy set_max_download_rate set_max_upload_rate IsEquipped
first_client-IsEquipped c rc e =
    let start = with_proxy c.proxyurl fresh_client in
    elim (Option-cases (with_rate set_max_download_rate c.max_download_rate start)) [
      | inl none_set ↦ absurd (ground arith)
      | inr (mid, set) ↦
          let based = with_proxy-url c.proxyurl in
          let (down, is_down, mid_is) =
            with_rate-IsRate set_max_download_rate c.max_download_rate start mid
              (ap (λ b. set_max_download_rate 0 b) based ∙ sym based) set in
          let mid_set : mid
              ≡ set_max_download_rate down (record fresh_client { proxy_url = url_of c.proxyurl }) =
            mid_is ∙ ap (set_max_download_rate down) based in
          let (up, is_up, rc_is) =
            with_rate-IsRate set_max_upload_rate c.max_upload_rate mid rc
              (ap (set_max_upload_rate 0) mid_set ∙ sym mid_set)
              (sym (ap (λ o. then_set o (with_rate set_max_upload_rate c.max_upload_rate)) set)
                ∙ e) in
          let all = rc_is ∙ ap (set_max_upload_rate up) mid_set in
          (
            ap (λ k. k.proxy_url) all,
            subst (IsRate c.max_download_rate) (sym (ap (λ k. k.max_download_rate) all)) is_down,
            subst (IsRate c.max_upload_rate) (sym (ap (λ k. k.max_upload_rate) all)) is_up,
          )
    ]

module _ (H : Http) (is_directory : Text → Bool) where
  not_started :
      {o : Outcome} {v w : H.World} {shown : List Text} {pool : ObjectPool RestClient} {dir : Text}
      → is_started o ≡ false
      → ◌≡◌ {A = Outcome × H.World} (o, v) (started shown pool dir, w)
      → ⊥
  not_started e r = ground (arith, e, ap (λ y. is_started y.0) r)

  enough :
      (b : Bool) (w w' : H.World) (x : Outcome × H.World) {shown : List Text}
      {pool : ObjectPool RestClient} {dir : Text}
      → (if b then (exited 1, w) else x) ≡ (started shown pool dir, w')
      → x ≡ (started shown pool dir, w')
  enough true w w' x r = absurd (not_started refl r)
  enough false w w' x r = r

  abbrev pub IsCached : Option Text → Text → Type 0
  IsCached cachedir dir =
      ((cachedir ≡ none) × (dir ≡ [])) ⊎ ((cachedir ≡ some dir) × (is_directory dir ≡ true))

  -- A login with this account, from some client, that succeeded.
  abbrev pub HasLoggedIn : Text → Text → RestClient → H.World → H.World → Type 0
  HasLoggedIn user word rc w w' =
      (base : RestClient) × (log_in H user word (base, w) ≡ (ok tt, (rc, w')))

  -- What holds of a process in which FUSE runs, by the options `c` that were in force.
  pub record IsReady (args : List Text) (c : MarcfsConfig) (w : H.World) (shown : List Text)
      (pool : ObjectPool RestClient) (dir : Text) (w' : H.World) : Type 0 where
    pub user : Text
    pub word : Text
    pub rc : RestClient
    pub given_user : c.username ≡ some user
    pub given_word : c.password ≡ some word
    pub hidden : hide_sensitive args ≡ some shown
    pub logged_in : HasLoggedIn user word rc w w'
    pub account : (rc.login ≡ user) × (rc.password ≡ word)
    pub proxy : rc.proxy_url ≡ url_of c.proxyurl
    pub download_rate : IsRate c.max_download_rate rc.max_download_rate
    pub upload_rate : IsRate c.max_upload_rate rc.max_upload_rate
    pub clients : values pool ≡ replicate 25 rc
    pub cached : IsCached c.cachedir dir

  cache_dir-IsCached :
      (cachedir : Option Text) (args shown : List Text) (pool pool' : ObjectPool RestClient)
      (dir : Text)
      → with_cache_dir H is_directory cachedir args pool ≡ started shown pool' dir
      → (args ≡ shown) × (pool ≡ pool') × IsCached cachedir dir
  unfolding with_cache_dir
  cache_dir-IsCached none args shown pool pool' dir e = (cc, cc, inl (refl, cc))
  cache_dir-IsCached (some d) args shown pool pool' dir e = elim (Bool-cases (is_directory d)) [
    | inl there ↦ (ground arith, ground arith, inr (ground arith, ground arith))
    | inr missing ↦ absurd (ground arith)
  ]

  login-IsReady :
      (args hidden shown : List Text) (c : MarcfsConfig) (user word : Text) (base : RestClient)
      (w w' : H.World) (pool : ObjectPool RestClient) (dir : Text)
      (x : Result (Unit {0}) × Session H)
      → c.username ≡ some user
      → c.password ≡ some word
      → first_client c ≡ some base
      → log_in H user word (base, w) ≡ x
      → hide_sensitive args ≡ some hidden
      → after_login H is_directory c.cachedir hidden x ≡ (started shown pool dir, w')
      → IsReady args c w shown pool dir w'
  unfolding IsEquipped
  login-IsReady args hidden shown c user word base w w' pool dir (fail e, (rc, v)) u p b l h r =
      absurd (not_started refl r)
  login-IsReady args hidden shown c user word base w w' pool dir (ok a, (rc, v)) u p b l h r =
      let (same_args, same_pool, cached) =
        cache_dir-IsCached c.cachedir hidden shown (populate rc 25 empty_pool) pool dir
          (ap (λ y. y.0) r) in
      let same : settings rc ≡ settings (record base { login = user; password = word }) =
        ap (λ y. settings y.1.0) (sym l)
        ∙ log_in-settings H user word (base, w) (ap (λ y. y.0) l) in
      let set = first_client-IsEquipped c base b in
      record {
        user = user;
        word = word;
        rc = rc;
        given_user = u;
        given_word = p;
        hidden = h ∙ ap some same_args;
        logged_in = (base, l ∙ ap (λ v'. (ok tt, (rc, v'))) (ap (λ y. y.1) r));
        account = (ap (λ k. k.login) same, ap (λ k. k.password) same);
        proxy = ap (λ k. k.proxy_url) same ∙ set.0;
        download_rate =
            subst (IsRate c.max_download_rate) (sym (ap (λ k. k.max_download_rate) same)) set.1;
        upload_rate =
            subst (IsRate c.max_upload_rate) (sym (ap (λ k. k.max_upload_rate) same)) set.2;
        clients = ap values (sym same_pool) ∙ values-populate rc 25 empty_pool;
        cached = cached;
      }

  launched-IsReady :
      (args shown : List Text) (c : MarcfsConfig) (user word : Text) (w w' : H.World)
      (pool : ObjectPool RestClient) (dir : Text) (hiding : Option (List Text))
      (first : Option RestClient)
      → c.username ≡ some user
      → c.password ≡ some word
      → hide_sensitive args ≡ hiding
      → first_client c ≡ first
      → launched H is_directory c user word hiding first w ≡ (started shown pool dir, w')
      → IsReady args c w shown pool dir w'
  unfolding set_login set_password get_login get_password
  launched-IsReady args shown c user word w w' pool dir none first u p h b r =
      absurd (not_started refl r)
  launched-IsReady args shown c user word w w' pool dir (some hidden) none u p h b r =
      absurd (not_started refl r)
  launched-IsReady args shown c user word w w' pool dir (some hidden) (some rc) u p h b r =
      login-IsReady args hidden shown c user word rc w w' pool dir _ u p b refl h r

  credentials-IsReady :
      (args shown : List Text) (c : MarcfsConfig) (w w' : H.World) (pool : ObjectPool RestClient)
      (dir : Text) (user word : Option Text)
      → c.username ≡ user
      → c.password ≡ word
      → with_credentials H is_directory args c user word w ≡ (started shown pool dir, w')
      → IsReady args c w shown pool dir w'
  unfolding with_credentials prepare
  credentials-IsReady args shown c w w' pool dir none word u p r = absurd (not_started refl r)
  credentials-IsReady args shown c w w' pool dir (some user) none u p r =
      absurd (not_started refl r)
  credentials-IsReady args shown c w w' pool dir (some user) (some word) u p r =
      launched-IsReady args shown c user word w w' pool dir _ _ u p refl refl r

  configured-IsReady :
      (args shown : List Text) (w w' : H.World) (pool : ObjectPool RestClient) (dir : Text)
      (loaded : Result MarcfsConfig)
      → configured H is_directory args loaded w ≡ (started shown pool dir, w')
      → (c : MarcfsConfig) × (loaded ≡ ok c) × IsReady args c w shown pool dir w'
  configured-IsReady args shown w w' pool dir (fail e) r = absurd (not_started refl r)
  configured-IsReady args shown w w' pool dir (ok c) r =
      (c, refl, credentials-IsReady args shown c w w' pool dir c.username c.password refl refl r)

  parsed-IsReady :
      (load : MarcfsConfig → Result MarcfsConfig) (args shown : List Text) (w w' : H.World)
      (pool : ObjectPool RestClient) (dir : Text) (parsed : Parsed)
      → parsed_options H is_directory load args parsed w ≡ (started shown pool dir, w')
      → (given c : MarcfsConfig) × (parsed ≡ options given)
        × (load given ≡ ok c)
        × IsReady args c w shown pool dir w'
  unfolding parsed_options
  parsed-IsReady load args shown w w' pool dir key_help r = absurd (not_started refl r)
  parsed-IsReady load args shown w w' pool dir key_version r = absurd (not_started refl r)
  parsed-IsReady load args shown w w' pool dir refused r = absurd (not_started refl r)
  parsed-IsReady load args shown w w' pool dir (options given) r =
      let (c, loaded, ready) = configured-IsReady args shown w w' pool dir (load given) r in
      (given, c, refl, loaded, ready)

  -- FUSE starts only with options from the command line and the file that name a user and a password,
  -- after a login with these two that succeeded: then the pool holds 25 copies of the client that logged
  -- in, which has this account, the proxy of the options, or none, and each of the two rates of the
  -- options, in bytes; the arguments are hidden, and the cache directory, if there is one, is a
  -- directory.
  pub main-IsReady :
      (fuse_opt_parse : List Text → Parsed) (load : MarcfsConfig → Result MarcfsConfig)
      (args shown : List Text) (w w' : H.World) (pool : ObjectPool RestClient) (dir : Text)
      → main H is_directory fuse_opt_parse load args w ≡ (started shown pool dir, w')
      → (given c : MarcfsConfig) × (fuse_opt_parse args ≡ options given)
        × (load given ≡ ok c)
        × IsReady args c w shown pool dir w'
  unfolding main
  main-IsReady fuse_opt_parse load args shown w w' pool dir r =
      parsed-IsReady load args shown w w' pool dir (fuse_opt_parse args)
        (enough (ltb (length args) 2) w w' _ r)
