-- ===== src/Hooks/Frames.antt =====
-- What the callbacks keep of the state: a relation that the single changes of the state respect is
-- respected by the jobs built of them, whatever they answer.
pub mod Names
pub mod Files
pub mod Idle
pub mod Flows
use marc_fs.Base.{
  ℕ, zero, suc, inl, inr, Bool, false, Option, none, some, List, [], ◌∷◌, ◌++◌, arith,
  if◌then◌else◌, Bool-cases, ℤ, pos, negsuc, Result, ok, fail, M, bind_result, ◌>>=◌, ◌>>◌, Text,
  codes, text_eq, subst, sym, ap,
}
use marc_fs.CloudFile.{CloudFile, get_name}
use marc_fs.Cache
use marc_fs.Cache.{Cache, CacheNode}
use marc_fs.Paths.{ends_with_slash}
use marc_fs.Stat.{Stat, zero_stat}
use marc_fs.Compounds.{handle_compounds}
use marc_fs.Retry.{do_with_retry}
use marc_fs.Hooks.{Setup, Handle, Fs, With, pool, on_client, on_cache}
use marc_fs.Hooks.Attributes.{
  scan_entry, scan_entries, look_up, from_cache, from_path, with_handle, getattr_callback,
  list_entries, readdir_job, readdir_callback, Filled, statfs_job, statfs_callback, StatVfs,
  space_stat,
}
use marc_fs.Hooks.Links.{stat_of}

-- A relation between the states before and after, over any setup: that of a session of a client, of
-- the cache, and of a retried job.
pub record Frame (U : Setup) : Type 1 where
  pub Rel : Fs U → Fs U → Type 0
  pub same : (fs : Fs U) → Rel fs fs
  pub chain : {a b c : Fs U} → Rel a b → Rel b c → Rel a c
  pub of_world : (w : U.C.World) (fs : Fs U) → Rel fs (record fs { world = w })
  pub of_cache : (c : Cache) (fs : Fs U) → Rel fs (record fs { cache = c })
  pub of_clock : (n : ℕ) (z : ℤ) (fs : Fs U) → Rel fs (record fs { steady = n; time = z })
  pub of_retry :
      {A : Type 0} (m : M (With U A) ℤ)
      → ((t : With U A) → Rel t.0 (m t).1.0)
      → (t : With U A) → Rel t.0 (do_with_retry (pool U) m t).1.0

module _ (U : Setup) (F : Frame U) where
  -- The state after is related to the one before, also where an exception passes.
  abbrev pub Keeps : {A B : Type 0} → M (With U A) B → Type 0
  Keeps m = (t : _) → F.Rel t.0 (m t).1.0

  pub bind_result_keeps :
      {A B D : Type 0} {fs : Fs U} (k : B → M (With U A) D) (r : Result B × With U A)
      → F.Rel fs r.1.0
      → ((b : B) → Keeps (k b))
      → F.Rel fs (bind_result k r).1.0
  bind_result_keeps k (ok b, t) h g = F.chain h (g b t)
  bind_result_keeps k (fail e, t) h g = h

  pub >>=-Keeps :
      {A B D : Type 0} (m : M (With U A) B) (k : B → M (With U A) D)
      → Keeps m
      → ((b : B) → Keeps (k b))
      → Keeps (m >>= k)
  >>=-Keeps m k h g t = bind_result_keeps k (m t) (h t) g

  pub on_client-Keeps : {A B : Type 0} (m : M U.C.World B) → Keeps (on_client U {A = A} m)
  on_client-Keeps m (fs, a) = F.of_world _ fs

  pub on_cache-Keeps : {A : Type 0} (f : Cache → Cache) → Keeps (on_cache U {A = A} f)
  on_cache-Keeps f (fs, a) = F.of_cache _ fs

  scan_entry_keeps :
      (dir name : Text) (cf : CloudFile) (s : Bool × With U Stat)
      → F.Rel s.1.0 (scan_entry U dir name cf s).1.0
  unfolding scan_entry get_name
  scan_entry_keeps dir name cf s = elim (Bool-cases (text_eq (get_name cf) name)) [
    | inl hit ↦ rw hit (F.of_cache _ s.1.0)
    | inr miss ↦ rw miss (F.of_cache _ s.1.0)
  ]

  scan_entries_keeps :
      (dir name : Text) (files : List CloudFile) (s : Bool × With U Stat)
      → F.Rel s.1.0 (scan_entries U dir name files s).1.0
  unfolding scan_entries
  scan_entries_keeps dir name [] s = F.same s.1.0
  scan_entries_keeps dir name (cf ∷ files) s =
      F.chain (scan_entry_keeps dir name cf s)
        (scan_entries_keeps dir name files (scan_entry U dir name cf s))

  pub look_up-Keeps : (dir name : Text) → Keeps (look_up U dir name)
  unfolding look_up
  look_up-Keeps dir name =
      >>=-Keeps (on_client U (U.C.ls dir)) _ (on_client-Keeps (U.C.ls dir))
        λ contents t. scan_entries_keeps dir name (handle_compounds U.order contents) (false, t)

  from_cache_keeps :
      (path dir name : Text) (fs : Fs U) (st : Stat) (r : Option CacheNode × Cache)
      → F.Rel fs (from_cache U path dir name fs st r).1.0
  unfolding from_cache
  from_cache_keeps path dir name fs st (some cached, c) = F.of_cache c fs
  from_cache_keeps path dir name fs st (none, c) =
      let dir_path = dir ++ (if ends_with_slash path then [] else 47 ∷ []) in
      F.chain (F.of_cache c fs) (
        F.of_retry (look_up U dir_path name) (look_up-Keeps dir_path name)
          (record fs { cache = c }, st))

  from_path_keeps :
      (path : Text) (fs : Fs U) (st : Stat) (r : Option (Text × Text))
      → F.Rel fs (from_path U path fs st r).1.0
  unfolding from_path
  from_path_keeps path fs st none = F.same fs
  from_path_keeps path fs st (some (dir, name)) = from_cache_keeps path dir name fs st _

  with_handle-Keeps : (path : Text) (fi : Option (Handle U)) → Keeps (with_handle U path fi)
  unfolding with_handle
  with_handle-Keeps path none (fs, st) = from_path_keeps path fs st _
  with_handle-Keeps path (some h) (fs, st) = F.same fs

  pub getattr_callback-Keeps :
      (path : Text) (fi : Option (Handle U)) → Keeps (getattr_callback U path fi)
  unfolding getattr_callback
  getattr_callback-Keeps path fi (fs, st) = elim (Bool-cases (text_eq path (codes "/"))) [
    | inl root ↦ rw root (F.same fs)
    | inr other ↦ rw other (with_handle-Keeps path fi (fs, st))
  ]

  pub stat_of-Keeps : {A : Type 0} (path : Text) → Keeps (stat_of U {A = A} path)
  unfolding stat_of
  stat_of-Keeps path (fs, a) =
      let r = getattr_callback U path none (fs, zero_stat) in
      bind_result_keeps (λ code t. (ok (code, r.1.1), t)) (r.0, (r.1.0, a))
        (getattr_callback-Keeps path none (fs, zero_stat)) (λ code t. F.same t.0)

  pub list_entries-Keeps : (dir : Text) (files : List CloudFile) → Keeps (list_entries U dir files)
  unfolding list_entries
  list_entries-Keeps dir [] t = F.same t.0
  list_entries-Keeps dir (cf ∷ files) (fs, out) =
      F.chain (F.of_cache _ fs) (list_entries-Keeps dir files _)

  pub readdir_job-Keeps : (path : Text) → Keeps (readdir_job U path)
  unfolding readdir_job
  readdir_job-Keeps path =
      >>=-Keeps (on_client U (U.C.ls path)) _ (on_client-Keeps (U.C.ls path)) λ contents.
        >>=-Keeps (list_entries U _ (handle_compounds U.order contents)) _
          (list_entries-Keeps _ (handle_compounds U.order contents)) (λ _ t. F.same t.0)

  pub readdir_callback-Keeps : (path : Text) → Keeps (readdir_callback U path)
  unfolding readdir_callback
  readdir_callback-Keeps path (fs, out) = F.of_retry (readdir_job U path) (readdir_job-Keeps path) _

  pub statfs_job-Keeps : Keeps (statfs_job U)
  unfolding statfs_job
  statfs_job-Keeps = >>=-Keeps (on_client U U.C.df) _ (on_client-Keeps U.C.df) (λ _ t. F.same t.0)

  pub statfs_callback-Keeps : Keeps (statfs_callback U)
  unfolding statfs_callback
  statfs_callback-Keeps = F.of_retry (statfs_job U) statfs_job-Keeps
