-- ===== src/Fuse/Sessions/Moves.antt =====
-- The single requests of a session: `write`, `read`, `flush` and `release`.
use marc_fs.Base.{
  ℕ, ℤ, ◌+◌, ◌<◌, ◌≡◌, ◌≢◌, sym, ap, subst, ◌∙◌, some, arith, pos, length, ok, bind_result, Bytes,
  Text, M,
}
use marc_fs.Base.Slices.{slice}
use marc_fs.Storage
use marc_fs.Storage.Contents.{written}
use marc_fs.Cloud
use marc_fs.Node
use marc_fs.Node.{Node}
use marc_fs.Node.Edit.{write_node-IsWritten}
use marc_fs.Hooks.{Setup, Handle, file_node, Fs, set_handle}
use marc_fs.Hooks.Files.{on_file, on_handle, read_callback, write_callback}
use marc_fs.Fuse.{write, read, code, bytes, serve}
use marc_fs.Fuse.Sessions.{Rests, Edits}

module _ (U : Setup) where
  pub on_file_steps :
      {A : Type 0} (h : ℕ) (m : M (Node U.S) A) (n : Node U.S) (fs : Fs U)
      → fs.handles h ≡ some (file_node n)
      → on_file U h m fs ≡ ((m n).0, set_handle U h (some (file_node (m n).1)) fs)
  unfolding on_file on_handle
  on_file_steps h m n fs e = ap (on_handle U h m fs) e

  pub own_handle :
      (h : ℕ) (v : Handle U) (fs : Fs U) → (set_handle U h (some v) fs).handles h ≡ some v
  own_handle h v fs = ground arith

module _ (U : Setup) (LS : Storage.IsLawful U.S) (L : Cloud.IsLawful U.C) (path : Text)
    (left : ℕ) where
  open LS use {view, IsReady}

  -- What the cloud and the cache are does not hang on the open objects.
  pub Rests-moved :
      {body : Bytes} (fs : Fs U) (g : ℕ → _) (n : ℕ)
      → Rests U LS L path left body fs
      → Rests U LS L path left body (record fs { handles = g; next_handle = n })
  Rests-moved fs g n x = record {
    online = x.online;
    exact = x.exact;
    some_idle = x.some_idle;
    cached = x.cached;
    known = x.known;
    young = x.young;
    size = x.size;
  }

  module _ (h upcoming : ℕ) where
    pub write-Edits :
        (buf : Bytes) (offset : ℕ) (old body : Bytes) (fs : Fs U)
        → 0 < length buf
        → offset + length buf < 0x8000_0000
        → Rests U LS L path left old fs
        → Edits U LS L path h upcoming old body fs
        → (t : Fs U) × (serve U (write h buf offset) fs ≡ (ok (code (pos (length buf))), t))
          × Rests U LS L path left old t
          × Edits U LS L path h upcoming old (written buf offset body) t
    unfolding serve write_callback
    write-Edits buf offset old body fs some_bytes small x y =
        let w = write_node-IsWritten U.S LS y.node fs.time buf offset y.ready some_bytes small in
        let m = (Node.write_node U.S fs.time buf offset y.node).1 in
        let t = set_handle U h (some (file_node m)) fs in
        (
          t,
          ap (bind_result (λ z s. (ok (code z), s))) (
              on_file_steps U h (Node.write_node U.S fs.time buf offset) y.node fs y.there_is
              ∙ ap (λ r. (r, t)) w.count),
          Rests-moved fs _ _ x,
          record {
            node = m;
            there_is = own_handle U h (file_node m) fs;
            ready = w.ready;
            content = w.bytes ∙ ap (written buf offset) y.content;
            old_size = ap (λ (n : Node U.S). n.old_size) w.node ∙ y.old_size;
            clean = λ e. absurd (ground (arith, ap (λ (n : Node U.S). n.dirty) w.node));
            next = y.next;
          },
        )

    pub read-Edits :
        (n offset : ℕ) (old body : Bytes) (fs : Fs U)
        → n < 0x8000_0000
        → offset + n < 0x8000_0000_0000_0000
        → offset ≢ length body
        → Rests U LS L path left old fs
        → Edits U LS L path h upcoming old body fs
        → (t : Fs U) × (serve U (read h n offset) fs
            ≡ (ok (bytes (pos (length (slice offset n body))) (slice offset n body)), t))
          × Rests U LS L path left old t
          × Edits U LS L path h upcoming old body t
    unfolding serve read_callback Node.read_node
    read-Edits n offset old body fs small far inside x y =
        let r =
          LS.read-view n offset y.node.content y.ready small far
            (λ e. inside (e ∙ ap length y.content)) in
        let m = (Node.read_node U.S n offset y.node).1 in
        let t = set_handle U h (some (file_node m)) fs in
        (
          t,
          ap (bind_result (λ r s. (ok (bytes r.0 r.1), s))) (
              on_file_steps U h (Node.read_node U.S n offset) y.node fs y.there_is
              ∙ ap (λ r. (r, t))
                  (ap (λ s. s.0) r
                    ∙ ap (λ v. (ok (pos (length (slice offset n v)), slice offset n v)))
                        y.content)),
          Rests-moved fs _ _ x,
          record {
            node = m;
            there_is = own_handle U h (file_node m) fs;
            ready = subst IsReady (sym (ap (λ s. s.1) r)) y.ready;
            content = ap (λ s. view s.1) r ∙ y.content;
            old_size = y.old_size;
            clean = y.clean;
            next = y.next;
          },
        )

module _ (U : Setup) (LS : Storage.IsLawful U.S) (L : Cloud.IsLawful U.C) (path : Text) where
  -- A pause uses up some of the time for which the stat is known.
  pub Rests-later :
      {body : Bytes} (d left : ℕ) (now : ℤ) (fs : Fs U)
      → Rests U LS L path (d + left) body fs
      → Rests U LS L path left body (record fs { steady = fs.steady + d; time = now })
  Rests-later d left now fs x = record {
    online = x.online;
    exact = x.exact;
    some_idle = x.some_idle;
    cached = x.cached;
    known = x.known;
    young = ground (arith, x.young);
    size = x.size;
  }

  pub Rests-unspent :
      {body : Bytes} (left : ℕ) (fs : Fs U)
      → Rests U LS L path (0 + left) body fs
      → Rests U LS L path left body fs
  Rests-unspent {body} left fs x = subst (λ k. Rests U LS L path k body fs) (omega arith) x
