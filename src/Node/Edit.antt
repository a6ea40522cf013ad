-- ===== src/Node/Edit.antt =====
-- Reading and changing an open node's content over a lawful storage.
use marc_fs.Base.{
  ℕ, suc, ◌+◌, ◌<◌, max, ◌≡◌, refl, sym, subst, inl, inr, true, false, [], ◌∷◌, arith, leb,
  if◌then◌else◌, leb→le, Bool-cases, length, is_nil, ℤ, pos, Result, ok, Bytes,
}
use marc_fs.Base.Slices.{slice, resize, slice-overwrite, length-resize, length-overwrite}
use marc_fs.Storage
use marc_fs.Storage.{Storage}
use marc_fs.Storage.Contents.{written}
use marc_fs.Node.{Node, write_node, release_node, get_size, noted}

pub slice-written :
    (buf : Bytes) (offset : ℕ) (bytes : Bytes)
    → slice offset (length buf) (written buf offset bytes) ≡ buf
slice-written buf offset bytes = elim (Bool-cases (leb (offset + length buf) (length bytes))) [
  | inl inside ↦ rw inside (slice-overwrite offset buf bytes (ground arith))
  | inr beyond ↦ rw beyond (
      slice-overwrite offset buf (resize (offset + length buf) 0 bytes)
        (omega (arith, length-resize (offset + length buf) 0 bytes)))
]

pub length-written :
    (buf : Bytes) (offset : ℕ) (bytes : Bytes)
    → length (written buf offset bytes) ≡ max (length bytes) (offset + length buf)
length-written buf offset bytes = elim (Bool-cases (leb (offset + length buf) (length bytes))) [
  | inl inside ↦
      rw inside
        (omega (arith, length-overwrite offset buf bytes (leb→le _ _ inside), leb→le _ _ inside))
  | inr beyond ↦ rw beyond (
      omega (
        arith,
        length-overwrite offset buf (resize (offset + length buf) 0 bytes)
            (omega (arith, length-resize (offset + length buf) 0 bytes)),
        length-resize (offset + length buf) 0 bytes,
        leb→lt (offset + length buf) (length bytes) beyond,
      ))
]
  where
    leb→lt : (a b : ℕ) → leb a b ≡ false → b < a
    leb→lt a b h = ground arith

module _ (S : Storage) (LS : Storage.IsLawful S) (n : Node S) where
  open LS use {view, IsReady, IsFresh}

  -- What a write leaves.
  pub record IsWritten (now : ℤ) (buf : Bytes) (offset : ℕ) (r : Result ℤ × Node S) : Type 0 where
    pub count : r.0 ≡ ok (pos (length buf))
    pub node : r.1 ≡ record n { content = r.1.content; dirty = true; mtime = now }
    pub ready : IsReady r.1.content
    pub bytes : view r.1.content ≡ written buf offset (view n.content)

  write_node_steps :
      (now : ℤ) (buf : Bytes) (offset k : ℕ)
      → (S.write buf offset n.content).0 ≡ ok (pos (suc k))
      → write_node S now buf offset n ≡ (
        ok (pos (suc k)),
        record n { content = (S.write buf offset n.content).1; dirty = true; mtime = now },
      )
  unfolding write_node
  write_node_steps now buf offset k e i =
      noted S now (e i, record n { content = (S.write buf offset n.content).1 })

  -- A nonempty write to an open node that ends below 2 GiB stores the bytes at their offset,
  -- reports all of them, and marks the node as changed at this time.
  pub write_node-IsWritten :
      (now : ℤ) (buf : Bytes) (offset : ℕ)
      → IsReady n.content
      → 0 < length buf
      → offset + length buf < 0x8000_0000
      → IsWritten now buf offset (write_node S now buf offset n)
  write_node-IsWritten now [] offset ready some_bytes small = absurd (omega arith)
  write_node-IsWritten now (b ∷ buf) offset ready some_bytes small =
      let x = LS.write-view (b ∷ buf) offset n.content ready some_bytes small in
      subst (IsWritten now (b ∷ buf) offset)
        (sym (write_node_steps now (b ∷ buf) offset (length buf) x.0))
        (record { count = refl; node = refl; ready = x.1; bytes = x.2 })

  -- A released node remembers its size, and its storage can be opened anew.
  pub release_node-IsFresh :
      IsReady n.content
      → IsFresh (release_node S n).content
        × ((release_node S n).old_size ≡ length (view n.content))
        × ((release_node S n).opened ≡ false)
  unfolding release_node
  release_node-IsFresh ready =
      (LS.clear-IsFresh n.content ready, LS.size-view n.content ready, refl)

  -- The size of an open node is that of its content, and the size known from the cloud while the
  -- content is empty.
  pub get_size-view :
      IsReady n.content
      → get_size S n ≡ (if is_nil (view n.content) then n.old_size else length (view n.content))
  unfolding get_size
  get_size-view ready = rw (LS.empty-view n.content ready, LS.size-view n.content ready)
