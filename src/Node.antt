-- ===== src/Node.antt =====
-- marc_node.h, marc_file_node.h and marc_file_node.cpp: an open regular file, over any storage and
-- any client. `limit` is `MARCFS_MAX_FILE_SIZE`. A method that the source guards by `netMutex` is one
-- step here. Times are arguments.
pub mod Exact
pub mod Flush
pub mod Open
pub mod Ways
pub mod Rename
pub mod Remove
pub mod Edit
pub mod RoundTrip
pub mod Stale
pub mod Truncate
pub mod Exchange
pub mod Prompt
use marc_fs.Base.{
  ℕ, zero, suc, ◌+◌, Bool, true, false, if◌then◌else◌, ℤ, pos, Result, ok, fail, M, pure, ◌>>◌,
  Bytes, Text,
}
use marc_fs.Storage.{Storage}
use marc_fs.Cloud.{Client, off_max}
use marc_fs.Parts.{part_name, is_compound, part_count, for_parts}

module _ (S : Storage) where
  pub record Node : Type 0 where
    pub content : S.State
    pub dirty : Bool
    pub old_size : ℕ
    pub mtime : ℤ
    pub opened : Bool

module _ (S : Storage) (C : Client) (limit : ℕ) where
  -- The node and the client's session.
  abbrev pub Job : Type 0
  Job = Node S × C.World

  -- `MarcFileNode()`, at a storage that was just made.
  unfoldable pub fresh_node : S.State → ℤ → Node S
  fresh_node c now = record {
    content = c;
    dirty = false;
    old_size = 0;
    mtime = now;
    opened = false;
  }

  -- `MarcFileNode(const struct stat &)`
  unfoldable pub node_of_stat : S.State → ℕ → ℤ → Node S
  unfolding fresh_node
  node_of_stat c size mtime = record (fresh_node c mtime) { old_size = size }

  abbrev pub on_world : {A : Type 0} → M C.World A → M Job A
  on_world m (n, w) = let (r, w') = m w in (r, (n, w'))

  -- `client->download`, which appends to the node's storage.
  unfoldable fetch : Text → M Job (Unit {0})
  fetch name (n, w) =
      let (bytes, rest) = C.download name w in
      (rest.0, (record n { content = S.append bytes n.content }, rest.1))

  unfoldable download_all : Text → M Job (Unit {0})
  download_all path (n, w) =
      if is_compound limit n.old_size
      then for_parts (λ idx. fetch (part_name path idx)) (part_count limit n.old_size) 0 (n, w)
      else fetch path (n, w)

  opening : Text → Result (Unit {0}) × S.State → M Job (Unit {0})
  opening path (fail e, c) (n, w) = (fail e, (record n { content = c }, w))
  opening path (ok _, c) (n, w) = download_all path (record n { content = c; opened = true }, w)

  -- `opened` is set before the download.
  pub open_node : Text → M Job (Unit {0})
  unfolding opening
  open_node path (n, w) =
      if n.opened then (ok tt, (n, w)) else opening path (S.open_storage n.content) (n, w)

  -- The parts of the size that the cloud is believed to hold, or the one file. `flush` and `remove`
  -- both do this.
  unfoldable pub remove_all : Text → ℕ → M C.World (Unit {0})
  remove_all path size =
      if is_compound limit size
      then for_parts (λ idx. C.remove (part_name path idx)) (part_count limit size) 0
      else C.remove path

  -- The loop over the new parts, with its running offset.
  unfoldable pub upload_parts : Text → Bytes → ℕ → ℕ → ℕ → M C.World (Unit {0})
  upload_parts path body zero idx offset = pure tt
  upload_parts path body (suc left) idx offset =
      C.upload (part_name path idx) body offset limit
      >> upload_parts path body left (suc idx) (offset + limit)

  unfoldable pub upload_all : Text → S.State → M C.World (Unit {0})
  upload_all path c =
      if is_compound limit (S.size c)
      then upload_parts path (S.bytes c) (part_count limit (S.size c)) 0 0
      else C.upload path (S.bytes c) 0 off_max

  unfoldable clean : M Job (Unit {0})
  clean (n, w) = (ok tt, (record n { dirty = false; old_size = S.size n.content }, w))

  unfoldable pub flush : Text → M Job (Unit {0})
  unfolding clean
  flush path (n, w) =
      let work : M Job (Unit {0}) =
        on_world (remove_all path n.old_size) >> (on_world (upload_all path n.content) >> clean) in
      if n.dirty then work (n, w) else (ok tt, (n, w))

  pub remove_node : Text → M Job (Unit {0})
  remove_node path (n, w) = on_world (remove_all path n.old_size) (n, w)

  unfoldable rename_all : Text → Text → ℕ → M C.World (Unit {0})
  rename_all old_path new_path size =
      if is_compound limit size
      then for_parts (λ idx. C.rename (part_name old_path idx) (part_name new_path idx))
          (part_count limit size) 0
      else C.rename old_path new_path

  pub rename_node : Text → Text → M Job (Unit {0})
  rename_node old_path new_path (n, w) = on_world (rename_all old_path new_path n.old_size) (n, w)

module _ (S : Storage) where
  abbrev in_node : {A : Type 0} → Node S → Result A × S.State → Result A × Node S
  in_node n (r, c) = (r, record n { content = c })

  unfoldable pub read_node : ℕ → ℕ → M (Node S) (ℤ × Bytes)
  read_node size offset n = in_node n (S.read size offset n.content)

  -- Only a positive count marks the node.
  noted : ℤ → Result ℤ × Node S → Result ℤ × Node S
  noted now (ok (pos (suc k)), n) = (ok (pos (suc k)), record n { dirty = true; mtime = now })
  noted now (r, n) = (r, n)

  pub write_node : ℤ → Bytes → ℕ → M (Node S) ℤ
  unfolding noted
  write_node now buf offset n = noted now (in_node n (S.write buf offset n.content))

  shrunk : ℕ → Result (Unit {0}) × Node S → Result (Unit {0}) × Node S
  shrunk size (ok _, n) = (ok tt, record n { old_size = size; dirty = true })
  shrunk size (fail e, n) = (fail e, n)

  pub truncate_node : ℕ → M (Node S) (Unit {0})
  unfolding shrunk
  truncate_node size n = shrunk size (in_node n (S.truncate size n.content))

  unfoldable pub release_node : Node S → Node S
  release_node n = record n {
    old_size = S.size n.content;
    content = S.clear n.content;
    opened = false;
  }

  unfoldable pub get_size : Node S → ℕ
  get_size n = if S.empty n.content then n.old_size else S.size n.content

  unfoldable pub get_mtime : Node S → ℤ
  get_mtime n = n.mtime

  pub set_mtime : ℤ → Node S → Node S
  set_mtime time n = record n { mtime = time }

  unfoldable is_opened : Node S → Bool
  is_opened n = n.opened
