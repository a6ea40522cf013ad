-- ===== src/Hooks/Files.antt =====
-- The callbacks on an open file, and those that open, release and truncate one.
pub mod Flushing
pub mod Truncating
use marc_fs.Base.{
  ℕ, suc, Option, none, some, ℤ, pos, undefined, Result, ok, fail, M, bind_result, ◌>>◌, Bytes,
  Text,
}
use marc_fs.Node
use marc_fs.Node.{Node}
use marc_fs.Cache
use marc_fs.Cache.{CacheNode}
use marc_fs.Stat.{fill_file_stat}
use marc_fs.Retry.{do_with_retry}
use marc_fs.Hooks.{Setup, Handle, file_node, dir_node, Fs, With, pool, set_handle}
use marc_fs.Hooks.Links.{handle_links}

module _ (U : Setup) where
  -- The object that `open` makes is reached by `fi->fh`, which is part of the state.
  abbrev pub Opening : Type 0
  Opening = With U (Option ℕ)

  -- Without an exception the node stays, under a new address. With one it is leaked.
  unfoldable pub keep_node :
      Result (Unit {0}) × (Node U.S × U.C.World) → Fs U → Option ℕ → Result ℤ × Opening
  keep_node (ok _, (n, w)) fs fh =
      let h = fs.next_handle in
      (
        ok (pos 0),
        (
          record (set_handle U h (some (file_node n)) fs) { world = w; next_handle = suc h },
          some h,
        ),
      )
  keep_node (fail e, (n, w)) fs fh = (fail e, (record fs { world = w }, fh))

  -- The pointer that the cache returns is not tested.
  unfoldable pub open_cached :
      Text → Option CacheNode × Cache.Cache → Fs U → Option ℕ → Result ℤ × Opening
  unfolding keep_node
  open_cached path (none, c) fs fh = (fail undefined, (record fs { cache = c }, fh))
  open_cached path (some cached, c) fs fh =
      let n =
        Node.node_of_stat U.S U.C U.limit U.fresh_storage cached.stbuf.size cached.stbuf.mtime in
      keep_node (Node.open_node U.S U.C U.limit path (n, fs.world)) (record fs { cache = c }) fh

  unfoldable pub open_job : Text → M Opening ℤ
  unfolding open_cached
  open_job path (fs, fh) = open_cached path (Cache.get fs.steady path fs.cache) fs fh

  unfoldable pub open_callback : Text → M Opening ℤ
  open_callback path = do_with_retry (pool U) (open_job path)

  unfoldable pub opendir_callback : M Opening ℤ
  opendir_callback (fs, fh) =
      let h = fs.next_handle in
      (ok (pos 0), (record (set_handle U h (some dir_node) fs) { next_handle = suc h }, some h))

  unfoldable pub releasedir_callback : ℕ → M (Fs U) ℤ
  releasedir_callback h fs = (ok (pos 0), set_handle U h none fs)

  -- A method of the file node behind a handle. Any other handle is not a file's.
  unfoldable pub on_handle :
      {A : Type 0} → ℕ → M (Node U.S) A → Fs U → Option (Handle U) → Result A × Fs U
  on_handle h m fs (some (file_node n)) =
      let (r, n') = m n in (r, set_handle U h (some (file_node n')) fs)
  on_handle h m fs (some dir_node) = (fail undefined, fs)
  on_handle h m fs none = (fail undefined, fs)

  unfoldable pub on_file : {A : Type 0} → ℕ → M (Node U.S) A → M (Fs U) A
  unfolding on_handle
  on_file h m fs = on_handle h m fs (fs.handles h)

  unfoldable pub read_callback : ℕ → ℕ → ℕ → M (Fs U) (ℤ × Bytes)
  read_callback h size offset = on_file h (Node.read_node U.S size offset)

  unfoldable pub write_callback : ℕ → Bytes → ℕ → M (Fs U) ℤ
  write_callback h buf offset fs = on_file h (Node.write_node U.S fs.time buf offset) fs

  -- `fi` is given with its handle, if it has one.
  unfoldable pub utimens_callback : Option ℕ → ℤ → M (Fs U) ℤ
  utimens_callback none seconds fs = (ok (pos 0), fs)
  utimens_callback (some h) seconds fs =
      on_file h (λ n. (ok (pos 0), Node.set_mtime U.S seconds n)) fs

  unfoldable pub chmod_callback : M (Fs U) ℤ
  chmod_callback fs = (ok (pos 0), fs)

  unfoldable pub release_callback : ℕ → M (Fs U) ℤ
  release_callback h fs =
      bind_result (λ _ s. (ok (pos 0), set_handle U h none s))
        (on_file h (λ n. (ok tt, Node.release_node U.S n)) fs)

  -- The cache's stat of a path, filled anew by a node.
  abbrev pub restat : Text → Node U.S → Cache.Cache → Cache.Cache
  restat path n = Cache.update path (fill_file_stat U.S U.context n)

  unfoldable pub flushed :
      ℕ → Text → Fs U → Result (Unit {0}) × (Node U.S × U.C.World) → Result ℤ × Fs U
  flushed h path fs (ok _, (n, w)) = (
    ok (pos 0),
    record (set_handle U h (some (file_node n)) fs) { world = w; cache = restat path n fs.cache },
  )
  flushed h path fs (fail e, (n, w)) =
      (fail e, record (set_handle U h (some (file_node n)) fs) { world = w })

  unfoldable pub flush_handle : ℕ → Text → Fs U → Option (Handle U) → Result ℤ × Fs U
  unfolding flushed
  flush_handle h path fs (some (file_node n)) =
      flushed h path fs (Node.flush U.S U.C U.limit path (n, fs.world))
  flush_handle h path fs (some dir_node) = (fail undefined, fs)
  flush_handle h path fs none = (fail undefined, fs)

  unfoldable pub flush_job : ℕ → Text → M (With U (Unit {0})) ℤ
  unfolding flush_handle
  flush_job h path (fs, a) = let (r, fs') = flush_handle h path fs (fs.handles h) in (r, (fs', a))

  -- `handleLinks` returns 0 or throws.
  unfoldable pub flush_callback : Text → ℕ → M (With U (Unit {0})) ℤ
  flush_callback path h =
      handle_links U path (λ A m. on_file h m) >> do_with_retry (pool U) (flush_job h path)

  -- The four calls on the temporary node; `open` and `flush` use the client.
  unfoldable pub reupload : Text → ℕ → M (Node U.S × U.C.World) (Unit {0})
  reupload path size =
      Node.open_node U.S U.C U.limit path
      >> ((λ (n, w). let (r, n') = Node.truncate_node U.S size n in (r, (n', w)))
          >> (Node.flush U.S U.C U.limit path >> λ (n, w). (ok tt, (Node.release_node U.S n, w))))

  unfoldable pub reuploaded :
      Text → Fs U → Result (Unit {0}) × (Node U.S × U.C.World) → Result ℤ × With U (Unit {0})
  reuploaded path fs (ok _, (n, w)) =
      (ok (pos 0), (record fs { world = w; cache = restat path n fs.cache }, tt))
  reuploaded path fs (fail e, (n, w)) = (fail e, (record fs { world = w }, tt))

  unfoldable pub truncate_job : Text → ℕ → M (With U (Unit {0})) ℤ
  unfolding reuploaded
  truncate_job path size (fs, _) =
      let n = Node.fresh_node U.S U.C U.limit U.fresh_storage fs.time in
      reuploaded path fs (reupload path size (n, fs.world))

  unfoldable pub truncated : Text → ℕ → Fs U → Result (Unit {0}) × Node U.S → Result ℤ × Fs U
  truncated path h fs (ok _, n) = (
    ok (pos 0),
    record (set_handle U h (some (file_node n)) fs) { cache = restat path n fs.cache },
  )
  truncated path h fs (fail e, n) = (fail e, set_handle U h (some (file_node n)) fs)

  unfoldable pub truncate_handle : Text → ℕ → ℕ → Fs U → Option (Handle U) → Result ℤ × Fs U
  unfolding truncated
  truncate_handle path size h fs (some (file_node n)) =
      truncated path h fs (Node.truncate_node U.S size n)
  truncate_handle path size h fs (some dir_node) = (fail undefined, fs)
  truncate_handle path size h fs none = (fail undefined, fs)

  -- An open file is truncated in place; any other is downloaded, cut and sent again.
  unfoldable pub truncate_callback : Text → ℕ → Option ℕ → M (With U (Unit {0})) ℤ
  unfolding truncate_handle
  truncate_callback path size (some h) (fs, a) =
      let (r, fs') = truncate_handle path size h fs (fs.handles h) in (r, (fs', a))
  truncate_callback path size none t = do_with_retry (pool U) (truncate_job path size) t
