-- ===== src/Hooks/Attributes.antt =====
-- `getattrCallback`, `readdirCallback` and `statfsCallback`.
use marc_fs.Base.{
  ℕ, ◌+◌, ◌-◌, ◌/◌, ◌%◌, Bool, true, false, Option, none, some, List, [], ◌∷◌, ◌++◌, if◌then◌else◌,
  ℤ, pos, u64_mod, Result, ok, M, pure, ◌>>=◌, ◌>>◌, Text, codes, text_eq,
}
use marc_fs.Cloud.{SpaceInfo}
use marc_fs.CloudFile.{CloudFile, get_name, s_ifdir}
use marc_fs.Cache
use marc_fs.Cache.{CacheNode, cache_node}
use marc_fs.Stat.{Stat, fill_stat, empty_stat, fill_dir_stat, fill_file_stat, zero_stat}
use marc_fs.Compounds.{handle_compounds}
use marc_fs.Paths.{split_last, is_slash, ends_with_slash}
use marc_fs.Retry.{do_with_retry}
use marc_fs.Retry.Errno
use marc_fs.Hooks.{Setup, Handle, file_node, dir_node, Fs, With, pool, on_client}

module _ (U : Setup) where
  -- One entry of a listing: its stat goes to the cache, and to the caller if it is the one asked for.
  -- The flag is `found`.
  unfoldable pub scan_entry : Text → Text → CloudFile → Bool × With U Stat → Bool × With U Stat
  unfolding get_name
  scan_entry dir_path filename cf (found, (fs, st)) =
      let node = cache_node fs.steady (fill_stat U.context cf zero_stat) in
      let fs' : Fs U = record fs { cache = Cache.put (dir_path ++ get_name cf) node fs.cache } in
      if text_eq (get_name cf) filename
      then (true, (fs', fill_stat U.context cf st))
      else (found, (fs', st))

  unfoldable pub scan_entries :
      Text → Text → List CloudFile → Bool × With U Stat → Bool × With U Stat
  scan_entries dir_path filename [] s = s
  scan_entries dir_path filename (cf ∷ rest) s =
      scan_entries dir_path filename rest (scan_entry dir_path filename cf s)

  unfoldable pub answer : Bool × With U Stat → Result ℤ × With U Stat
  answer (found, s) = (ok (if found then pos 0 else Errno.enoent), s)

  -- The listing of the containing folder, searched for the name.
  unfoldable pub look_up : Text → Text → M (With U Stat) ℤ
  unfolding answer
  look_up dir_path filename = on_client U (U.C.ls dir_path) >>= λ contents s.
      answer (scan_entries dir_path filename (handle_compounds U.order contents) (false, s))

  -- The stat cache first, then the cloud.
  unfoldable pub from_cache :
      Text → Text → Text → Fs U → Stat → Option CacheNode × Cache.Cache → Result ℤ × With U Stat
  from_cache path dirname filename fs st (some cached, c) =
      (ok (pos 0), (record fs { cache = c }, cached.stbuf))
  from_cache path dirname filename fs st (none, c) =
      let dir_path = dirname ++ (if ends_with_slash path then [] else 47 ∷ []) in
      do_with_retry (pool U) (look_up dir_path filename) (record fs { cache = c }, st)

  unfoldable pub from_path : Text → Fs U → Stat → Option (Text × Text) → Result ℤ × With U Stat
  unfolding from_cache
  from_path path fs st none = (ok Errno.eio, (fs, st))
  from_path path fs st (some (dirname, filename)) =
      from_cache path dirname filename fs st (Cache.get fs.steady path fs.cache)

  -- `MarcNode::fillStat`, by the class of the node.
  unfoldable pub handle_stat : Handle U → Stat → Stat
  handle_stat (file_node n) st = fill_file_stat U.S U.context n st
  handle_stat dir_node st = fill_dir_stat U.context st

  unfoldable pub with_handle : Text → Option (Handle U) → M (With U Stat) ℤ
  unfolding from_path handle_stat
  with_handle path (some h) (fs, st) = (ok (pos 0), (fs, handle_stat h st))
  with_handle path none (fs, st) = from_path path fs st (split_last is_slash path)

  -- `fi` is the object that `fi->fh` refers to, if there is one. `stbuf` is part of the state.
  unfoldable pub getattr_callback : Text → Option (Handle U) → M (With U Stat) ℤ
  unfolding with_handle
  getattr_callback path fi (fs, st) =
      if text_eq path (codes "/")
      then (ok (pos 0), (fs, empty_stat U.context s_ifdir fs.time st))
      else with_handle path fi (fs, st)

  -- What `filler` is given, in order: a name, and a stat where one is passed.
  abbrev pub Filled : Type 0
  Filled = List (Text × Option Stat)

  unfoldable pub list_entries : Text → List CloudFile → M (With U Filled) (Unit {0})
  unfolding get_name
  list_entries dir_path [] s = (ok tt, s)
  list_entries dir_path (cf ∷ rest) (fs, out) =
      let st = fill_stat U.context cf zero_stat in
      list_entries dir_path rest (
        record fs {
          cache = Cache.put (dir_path ++ get_name cf) (cache_node fs.steady st) fs.cache;
        },
        out ++ ((get_name cf, some st) ∷ []),
      )

  unfoldable pub readdir_job : Text → M (With U Filled) ℤ
  readdir_job path = on_client U (U.C.ls path) >>= λ contents.
      list_entries (path ++ (if ends_with_slash path then [] else 47 ∷ []))
        (handle_compounds U.order contents)
      >> pure (pos 0)

  -- The buffer starts empty.
  unfoldable pub readdir_callback : Text → M (With U Filled) ℤ
  readdir_callback path (fs, out) =
      do_with_retry (pool U) (readdir_job path)
        (fs, out ++ ((codes ".", none) ∷ (codes "..", none) ∷ []))

  -- `struct statvfs`, as far as it is set.
  pub record StatVfs : Type 0 where
    pub bsize : ℕ
    pub total_blocks : ℕ
    pub bfree : ℕ
    pub bavail : ℕ
    pub namemax : ℕ

  -- The subtraction is one of 64-bit words.
  unfoldable pub space_stat : SpaceInfo → StatVfs
  space_stat info =
      let total : ℕ = info.total / 4096 in
      let free : ℕ = (total + u64_mod - info.used / 4096) % u64_mod in
      record { bsize = 4096; total_blocks = total; bfree = free; bavail = free; namemax = 256 }

  unfoldable pub statfs_job : M (With U StatVfs) ℤ
  statfs_job = on_client U U.C.df >>= λ info (fs, _). (ok (pos 0), (fs, space_stat info))

  unfoldable pub statfs_callback : M (With U StatVfs) ℤ
  statfs_callback = do_with_retry (pool U) statfs_job
