-- ===== src/Fuse/Waiting.antt =====
-- No request waits for ever, one after the other and over calls that do not.
use marc_fs.Base.{
  ℕ, ◌≤◌, ◌≡◌, refl, ap, false, Option, none, some, List, [], ◌∷◌, arith, ℤ, inl, inr, Bool-cases,
  Result, ok, M, ◌>>=◌, Text, text_eq, codes,
}
use marc_fs.Stat.{zero_stat}
use marc_fs.Node
use marc_fs.Node.Prompt.{IsPromptClient, IsPromptStorage, read_node-IsPrompt, write_node-IsPrompt}
use marc_fs.Retry.Prompt.{waits, bind_result-waits}
use marc_fs.Hooks.{Setup, Handle, Fs, With}
use marc_fs.Hooks.Attributes.{getattr_callback, readdir_callback, statfs_callback}
use marc_fs.Hooks.Names.{
  mkdir_callback, mknod_callback, rmdir_callback, unlink_callback, rename_callback,
}
use marc_fs.Hooks.Files.{
  open_callback, opendir_callback, releasedir_callback, read_callback, write_callback,
  utimens_callback, chmod_callback, release_callback, flush_callback, truncate_callback,
}
use marc_fs.Hooks.Frames.Flows.{
  Flows, getattr_callback-Flows, readdir_callback-Flows, statfs_callback-Flows,
}
use marc_fs.Hooks.Frames.Flows.Names.{
  mkdir_callback-Flows, mknod_callback-Flows, rmdir_callback-Flows, unlink_callback-Flows,
  rename_callback-Flows,
}
use marc_fs.Hooks.Frames.Flows.Files.{
  on_file-IsPrompt, open_callback-Flows, flush_callback-Flows, truncate_callback-Flows,
  release_callback-IsPrompt, utimens_callback-IsPrompt,
}
use marc_fs.Fuse.{
  Request, Reply, filling, plain, coded, stat_object, stat_at, serve, serve_all, code, stat, bytes,
  listing, handle, space, no_space,
}
use marc_fs.Fuse.Handles.{serve-idle}

module _ (U : Setup) where
  filling-waits :
      {A : Type 0} (a : A) (reply : ℤ → A → Reply U) (m : M (With U A) ℤ) (fs : Fs U)
      → waits (m (fs, a)).0 ≡ false
      → waits (filling U a reply m fs).0 ≡ false
  filling-waits a reply m fs h =
      bind_result-waits (λ z s. (ok (reply z (m (fs, a)).1.1), s)) ((m (fs, a)).0, (m (fs, a)).1.0)
        h (λ z s e. refl)

  coded-waits :
      (m : M (Fs U) ℤ) (fs : Fs U) → waits (m fs).0 ≡ false → waits (coded U m fs).0 ≡ false
  coded-waits m fs h = bind_result-waits (λ z s. (ok (code z), s)) (m fs) h (λ z s e. refl)

module _ (U : Setup) (PS : IsPromptStorage U.S) (PC : IsPromptClient U.C) where
  plain-waits :
      (m : M (With U (Unit {0})) ℤ) (fs : Fs U)
      → Flows U 2 m
      → 2 ≤ fs.idle
      → waits (plain U m fs).0 ≡ false
  plain-waits m fs f h = filling-waits U tt (λ z _. code z) m fs (f (fs, tt) h)

  stat-waits :
      (path : Text) (o : Option (Handle U)) (fs : Fs U)
      → 2 ≤ fs.idle
      → waits (filling U zero_stat stat (getattr_callback U path o) fs).0 ≡ false
  stat-waits path o fs h =
      filling-waits U zero_stat stat (getattr_callback U path o) fs
        (getattr_callback-Flows U PC path o (fs, zero_stat) (omega arith))

  stat_object-waits :
      (path : Text) (o : Option (Handle U)) (fs : Fs U)
      → 2 ≤ fs.idle
      → waits (stat_object U path o fs).0 ≡ false
  stat_object-waits path (some o) fs h = stat-waits path (some o) fs h
  stat_object-waits path none fs h = elim (Bool-cases (text_eq path (codes "/"))) [
    | inl root ↦ rw root (stat-waits path none fs h)
    | inr other ↦ rw other refl
  ]

  stat_at-waits :
      (path : Text) (fi : Option ℕ) (fs : Fs U)
      → 2 ≤ fs.idle
      → waits (stat_at U path fi fs).0 ≡ false
  stat_at-waits path none fs h = stat-waits path none fs h
  stat_at-waits path (some k) fs h = stat_object-waits path (fs.handles k) fs h

  serve-waits : (r : Request) (fs : Fs U) → 2 ≤ fs.idle → waits (serve U r fs).0 ≡ false
  unfolding serve opendir_callback releasedir_callback chmod_callback read_callback write_callback
  serve-waits (Request.getattr path fi) fs h = stat_at-waits path fi fs h
  serve-waits Request.opendir fs h = refl
  serve-waits (Request.readdir path) fs h =
      filling-waits U [] listing (readdir_callback U path) fs
        (readdir_callback-Flows U PC path (fs, []) h)
  serve-waits (Request.releasedir k) fs h = refl
  serve-waits (Request.open_file path) fs h =
      filling-waits U none handle (open_callback U path) fs
        (open_callback-Flows U PS PC path (fs, none) h)
  serve-waits (Request.read k size offset) fs h =
      bind_result-waits (λ r s. (ok (bytes r.0 r.1), s)) (read_callback U k size offset fs)
        (on_file-IsPrompt U PS PC k (Node.read_node U.S size offset)
          (read_node-IsPrompt U.S PS size offset) fs)
        (λ z s e. refl)
  serve-waits (Request.write k buf offset) fs h = coded-waits U (write_callback U k buf offset) fs (
      on_file-IsPrompt U PS PC k (Node.write_node U.S fs.time buf offset)
        (write_node-IsPrompt U.S PS fs.time buf offset) fs)
  serve-waits (Request.flush path k) fs h =
      plain-waits (flush_callback U path k) fs (flush_callback-Flows U PS PC path k) h
  serve-waits (Request.release k) fs h =
      coded-waits U (release_callback U k) fs (release_callback-IsPrompt U PS PC k fs)
  serve-waits (Request.mkdir path) fs h =
      plain-waits (mkdir_callback U path) fs (mkdir_callback-Flows U PS PC path) h
  serve-waits (Request.rmdir path) fs h =
      plain-waits (rmdir_callback U path) fs (rmdir_callback-Flows U PS PC path) h
  serve-waits (Request.truncate path size fi) fs h =
      plain-waits (truncate_callback U path size fi) fs
        (truncate_callback-Flows U PS PC path size fi) h
  serve-waits (Request.unlink path) fs h =
      plain-waits (unlink_callback U path) fs (unlink_callback-Flows U PS PC path) h
  serve-waits (Request.rename old_path new_path flags) fs h =
      plain-waits (rename_callback U old_path new_path flags) fs
        (rename_callback-Flows U PS PC old_path new_path flags) h
  serve-waits Request.statfs fs h =
      filling-waits U (no_space U) space (statfs_callback U) fs
        (statfs_callback-Flows U PC (fs, no_space U) h)
  serve-waits (Request.utimens fi seconds) fs h =
      coded-waits U (utimens_callback U fi seconds) fs
        (utimens_callback-IsPrompt U PS PC fi seconds fs)
  serve-waits (Request.mknod path) fs h =
      plain-waits (mknod_callback U path) fs (mknod_callback-Flows U PS PC path) h
  serve-waits Request.chmod fs h = refl
  serve-waits (Request.elapse d now) fs h = refl

  -- While two clients are idle, and as long as no call on the client or on a storage waits for ever,
  -- no run of requests does, one after the other: also a rename, which takes a second client while it
  -- holds one, gets it.
  pub serve_all-waits :
      (rs : List Request) (fs : Fs U) → 2 ≤ fs.idle → waits (serve_all U rs fs).0 ≡ false
  unfolding serve_all
  serve_all-waits [] fs h = refl
  serve_all-waits (r ∷ rs) fs h =
      bind_result-waits (λ x. serve_all U rs >>= λ xs s. (ok (x ∷ xs), s)) (serve U r fs)
        (serve-waits r fs h)
        λ x s e.
          bind_result-waits (λ xs u. (ok (x ∷ xs), u)) (serve_all U rs s)
            (serve_all-waits rs s
              (omega (arith, serve-idle U r fs, ap (λ (p : Result (Reply U) × Fs U). p.1.idle) e)))
            (λ xs u e'. refl)
