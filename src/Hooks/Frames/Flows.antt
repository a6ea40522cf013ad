-- ===== src/Hooks/Frames/Flows.antt =====
-- That the callbacks do not wait for ever while enough clients are idle, over calls that do not.

pub mod Names
pub mod Files
use marc_fs.Base.{
  ℕ, suc, ◌≤◌, ◌≡◌, refl, ap, sym, ◌∙◌, inl, inr, Bool, false, Option, none, some, List, [], ◌∷◌,
  ◌++◌, arith, if◌then◌else◌, ℤ, pos, Result, ok, fail, M, bind_result, ◌>>=◌, ◌>>◌, pure, Text,
  codes, text_eq,
}
use marc_fs.CloudFile.{CloudFile}
use marc_fs.Cache
use marc_fs.Cache.{Cache, CacheNode}
use marc_fs.Paths.{ends_with_slash}
use marc_fs.Stat.{Stat, zero_stat, empty_stat}
use marc_fs.CloudFile.{s_ifdir}
use marc_fs.Compounds.{handle_compounds}
use marc_fs.Node.Prompt.{IsPromptClient}
use marc_fs.Retry.{do_with_retry}
use marc_fs.Retry.Prompt.{waits, IsPrompt, bind_result-waits, if-waits, do_with_retry_prompt}
use marc_fs.Hooks.{Setup, Handle, Fs, With, pool, on_client, on_cache}
use marc_fs.Hooks.Attributes.{
  scan_entries, answer, look_up, from_cache, from_path, with_handle, getattr_callback, list_entries,
  readdir_job, readdir_callback, Filled, statfs_job, statfs_callback, space_stat,
}
use marc_fs.Hooks.Links.{stat_of}
use marc_fs.Hooks.Frames.{
  Keeps, >>=-Keeps, on_client-Keeps, look_up-Keeps, list_entries-Keeps, readdir_job-Keeps,
  statfs_job-Keeps,
}
use marc_fs.Hooks.Frames.Idle.{idle_frame}

module _ (U : Setup) where
  -- While at least `n` clients are idle, the job does not wait for ever.
  abbrev pub Flows : {A B : Type 0} → ℕ → M (With U A) B → Type 0
  Flows n m = (t : _) → n ≤ t.0.idle → waits (m t).0 ≡ false

  pub >>=-Flows :
      {A B D : Type 0} (n : ℕ) (m : M (With U A) B) (k : B → M (With U A) D)
      → Flows n m
      → Keeps U (idle_frame U) m
      → ((b : B) → Flows n (k b))
      → Flows n (m >>= k)
  >>=-Flows n m k f keep g t h =
      bind_result-waits k (m t) (f t h)
        λ b s e. g b s (omega (arith, keep t, ap (λ r. r.1.0.idle) e))

  pub retry-Flows :
      {A : Type 0} (n : ℕ) (m : M (With U A) ℤ)
      → Flows n m
      → Keeps U (idle_frame U) m
      → Flows (suc n) (do_with_retry (pool U) m)
  retry-Flows n m f keep = do_with_retry_prompt (pool U) (λ n t. refl) n m f keep

  pub on_client-Flows :
      {A B : Type 0} (n : ℕ) (m : M U.C.World B) → IsPrompt m → Flows n (on_client U {A = A} m)
  on_client-Flows n m p (fs, a) h = p fs.world

  module _ (PC : IsPromptClient U.C) where
    look_up-Flows : (n : ℕ) (dir name : Text) → Flows n (look_up U dir name)
    unfolding look_up answer
    look_up-Flows n dir name =
        >>=-Flows n (on_client U (U.C.ls dir))
          (λ contents s.
            answer U (scan_entries U dir name (handle_compounds U.order contents) (false, s)))
          (on_client-Flows n (U.C.ls dir) (PC.ls dir))
          (on_client-Keeps U (idle_frame U) (U.C.ls dir)) (λ contents s h. refl)

    from_cache-waits :
        (path dir name : Text) (fs : Fs U) (st : Stat) (r : Option CacheNode × Cache)
        → 1 ≤ fs.idle
        → waits (from_cache U path dir name fs st r).0 ≡ false
    unfolding from_cache
    from_cache-waits path dir name fs st (some cached, c) h = refl
    from_cache-waits path dir name fs st (none, c) h =
        let dir_path = dir ++ (if ends_with_slash path then [] else 47 ∷ []) in
        retry-Flows 0 (look_up U dir_path name) (look_up-Flows 0 dir_path name)
          (look_up-Keeps U (idle_frame U) dir_path name) (record fs { cache = c }, st) h

    from_path-waits :
        (path : Text) (fs : Fs U) (st : Stat) (r : Option (Text × Text))
        → 1 ≤ fs.idle
        → waits (from_path U path fs st r).0 ≡ false
    unfolding from_path
    from_path-waits path fs st none h = refl
    from_path-waits path fs st (some (dir, name)) h =
        from_cache-waits path dir name fs st (Cache.get fs.steady path fs.cache) h

    with_handle-Flows : (path : Text) (fi : Option (Handle U)) → Flows 1 (with_handle U path fi)
    unfolding with_handle
    with_handle-Flows path none (fs, st) h = from_path-waits path fs st _ h
    with_handle-Flows path (some o) (fs, st) h = refl

    pub getattr_callback-Flows :
        (path : Text) (fi : Option (Handle U)) → Flows 1 (getattr_callback U path fi)
    unfolding getattr_callback
    getattr_callback-Flows path fi (fs, st) h =
        if-waits (text_eq path (codes "/"))
          (ok (pos 0), (fs, empty_stat U.context s_ifdir fs.time st))
          (with_handle U path fi (fs, st)) refl (with_handle-Flows path fi (fs, st) h)

    pub stat_of-Flows :
        {A : Type 0} (n : ℕ) (path : Text) → 1 ≤ n → Flows n (stat_of U {A = A} path)
    unfolding stat_of
    stat_of-Flows n path le (fs, a) h =
        let r = getattr_callback U path none (fs, zero_stat) in
        bind_result-waits (λ code t. (ok (code, r.1.1), t)) (r.0, (r.1.0, a))
          (getattr_callback-Flows path none (fs, zero_stat) (omega arith)) (λ code t e. refl)

    list_entries-Flows :
        (n : ℕ) (dir : Text) (files : List CloudFile) → Flows n (list_entries U dir files)
    unfolding list_entries
    list_entries-Flows n dir [] t h = refl
    list_entries-Flows n dir (cf ∷ files) (fs, out) h = list_entries-Flows n dir files _ h

    pub readdir_callback-Flows : (path : Text) → Flows 2 (readdir_callback U path)
    unfolding readdir_callback readdir_job
    readdir_callback-Flows path (fs, out) h =
        let F = idle_frame U in
        let entries = λ (contents : List CloudFile).
          list_entries U (path ++ (if ends_with_slash path then [] else 47 ∷ []))
            (handle_compounds U.order contents) in
        retry-Flows 1 (readdir_job U path)
          (>>=-Flows 1 (on_client U (U.C.ls path)) (λ contents. entries contents >> pure (pos 0))
            (on_client-Flows 1 (U.C.ls path) (PC.ls path)) (on_client-Keeps U F (U.C.ls path))
            (λ contents.
              >>=-Flows 1 (entries contents) (λ _. pure (pos 0))
                (list_entries-Flows 1 _ (handle_compounds U.order contents))
                (list_entries-Keeps U F _ (handle_compounds U.order contents)) (λ _ t g. refl)))
          (readdir_job-Keeps U F path) _ h

    statfs_job-Flows : Flows 1 (statfs_job U)
    unfolding statfs_job
    statfs_job-Flows =
        >>=-Flows 1 (on_client U U.C.df) (λ info (fs, _). (ok (pos 0), (fs, space_stat U info)))
          (on_client-Flows 1 U.C.df PC.df) (on_client-Keeps U (idle_frame U) U.C.df) (λ _ t g. refl)

    pub statfs_callback-Flows : Flows 2 (statfs_callback U)
    unfolding statfs_callback
    statfs_callback-Flows =
        retry-Flows 1 (statfs_job U) statfs_job-Flows (statfs_job-Keeps U (idle_frame U))
