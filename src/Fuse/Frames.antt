-- ===== src/Fuse/Frames.antt =====
-- What a request keeps of the state: what every callback that may answer it keeps.
use marc_fs.Base.{
  ℕ, ◌+◌, ◌≡◌, refl, inl, inr, Option, none, some, [], Bool-cases, ℤ, Result, ok, fail, M,
  bind_result, Text, text_eq, codes,
}
use marc_fs.Stat.{zero_stat}
use marc_fs.Node.{Node}
use marc_fs.Hooks.{Setup, Handle, Fs, With}
use marc_fs.Hooks.Attributes.{getattr_callback, readdir_callback, statfs_callback}
use marc_fs.Hooks.Names.{
  mkdir_callback, mknod_callback, rmdir_callback, unlink_callback, rename_callback,
}
use marc_fs.Node
use marc_fs.Hooks.Files.{
  open_callback, opendir_callback, releasedir_callback, release_callback, flush_callback,
  truncate_callback, utimens_callback, chmod_callback, read_callback, write_callback,
}
use marc_fs.Hooks.Frames.{
  Frame, Keeps, getattr_callback-Keeps, readdir_callback-Keeps, statfs_callback-Keeps,
}
use marc_fs.Hooks.Frames.Names.{
  mkdir_callback-Keeps, mknod_callback-Keeps, rmdir_callback-Keeps, unlink_callback-Keeps,
  rename_callback-Keeps,
}
use marc_fs.Hooks.Frames.Files.{
  FileFrame, open_callback-Keeps, opendir_callback-Keeps, releasedir_callback-Rel, on_file-Rel,
  release_callback-Rel, flush_callback-Keeps, truncate_callback-Keeps,
}
use marc_fs.Fuse.{
  Request, Reply, filling, plain, coded, no_space, handle, listing, space, stat_object, stat_at,
  serve, named, code, stat, bytes,
}

module _ (U : Setup) (F : Frame U) where
  pub bind_keeps :
      {A B : Type 0} {fs : Fs U} (k : A → M (Fs U) B) (r : Result A × Fs U)
      → F.Rel fs r.1
      → ((a : A) (s : Fs U) → F.Rel s (k a s).1)
      → F.Rel fs (bind_result k r).1
  bind_keeps k (ok a, s) x g = F.chain x (g a s)
  bind_keeps k (fail e, s) x g = x

  filling-Rel :
      {A : Type 0} (a : A) (reply : ℤ → A → Reply U) (m : M (With U A) ℤ) (fs : Fs U)
      → Keeps U F m
      → F.Rel fs (filling U a reply m fs).1
  filling-Rel a reply m fs h =
      bind_keeps (λ z s. (ok (reply z (m (fs, a)).1.1), s)) ((m (fs, a)).0, (m (fs, a)).1.0)
        (h (fs, a)) (λ z s. F.same s)

  coded-Rel : (m : M (Fs U) ℤ) (fs : Fs U) → F.Rel fs (m fs).1 → F.Rel fs (coded U m fs).1
  coded-Rel m fs h = bind_keeps (λ z s. (ok (code z), s)) (m fs) h (λ z s. F.same s)

  plain-Rel : (m : M (With U (Unit {0})) ℤ) (fs : Fs U) → Keeps U F m → F.Rel fs (plain U m fs).1
  plain-Rel m fs h = filling-Rel tt (λ z _. code z) m fs h

  stat_object-Rel :
      (path : Text) (o : Option (Handle U)) (fs : Fs U) → F.Rel fs (stat_object U path o fs).1
  stat_object-Rel path (some o) fs =
      filling-Rel zero_stat stat (getattr_callback U path (some o)) fs
        (getattr_callback-Keeps U F path (some o))
  stat_object-Rel path none fs = elim (Bool-cases (text_eq path (codes "/"))) [
    | inl root ↦ rw root (
        filling-Rel zero_stat stat (getattr_callback U path none) fs
          (getattr_callback-Keeps U F path none))
    | inr other ↦ rw other (F.same fs)
  ]

  stat_at-Rel : (path : Text) (fi : Option ℕ) (fs : Fs U) → F.Rel fs (stat_at U path fi fs).1
  stat_at-Rel path none fs =
      filling-Rel zero_stat stat (getattr_callback U path none) fs
        (getattr_callback-Keeps U F path none)
  stat_at-Rel path (some h) fs = stat_object-Rel path (fs.handles h) fs

  utimens_callback-Rel :
      (IsNamed : ℕ → Type 0) (G : FileFrame U F IsNamed) (fi : Option ℕ) (seconds : ℤ) (fs : Fs U)
      → ((h : ℕ) → fi ≡ some h → IsNamed h)
      → F.Rel fs (utimens_callback U fi seconds fs).1
  unfolding utimens_callback
  utimens_callback-Rel IsNamed G none seconds fs h = F.same fs
  utimens_callback-Rel IsNamed G (some k) seconds fs h = on_file-Rel U F IsNamed G k _ fs (h k refl)

  -- A frame holds between the states before and after a request, if it allows changes of the object
  -- that the request names.
  pub serve-Rel :
      (r : Request) (fs : Fs U) → FileFrame U F (λ h. named r ≡ some h) → F.Rel fs (serve U r fs).1
  unfolding serve named chmod_callback read_callback write_callback
  serve-Rel (Request.getattr path fi) fs G = stat_at-Rel path fi fs
  serve-Rel Request.opendir fs G =
      filling-Rel none handle (opendir_callback U) fs (opendir_callback-Keeps U F _ G)
  serve-Rel (Request.readdir path) fs G =
      filling-Rel [] listing (readdir_callback U path) fs (readdir_callback-Keeps U F path)
  serve-Rel (Request.releasedir h) fs G =
      coded-Rel (releasedir_callback U h) fs (releasedir_callback-Rel U F _ G h fs refl)
  serve-Rel (Request.open_file path) fs G =
      filling-Rel none handle (open_callback U path) fs (open_callback-Keeps U F _ G path)
  serve-Rel (Request.read h size offset) fs G =
      bind_keeps (λ r s. (ok (bytes r.0 r.1), s)) (read_callback U h size offset fs)
        (on_file-Rel U F _ G h (Node.read_node U.S size offset) fs refl) (λ z s. F.same s)
  serve-Rel (Request.write h buf offset) fs G =
      coded-Rel (write_callback U h buf offset) fs
        (on_file-Rel U F _ G h (Node.write_node U.S fs.time buf offset) fs refl)
  serve-Rel (Request.flush path h) fs G =
      plain-Rel (flush_callback U path h) fs (flush_callback-Keeps U F _ G path h refl)
  serve-Rel (Request.release h) fs G =
      coded-Rel (release_callback U h) fs (release_callback-Rel U F _ G h fs refl)
  serve-Rel (Request.mkdir path) fs G =
      plain-Rel (mkdir_callback U path) fs (mkdir_callback-Keeps U F path)
  serve-Rel (Request.rmdir path) fs G =
      plain-Rel (rmdir_callback U path) fs (rmdir_callback-Keeps U F path)
  serve-Rel (Request.truncate path size fi) fs G =
      plain-Rel (truncate_callback U path size fi) fs
        (truncate_callback-Keeps U F _ G path size fi (λ h e. e))
  serve-Rel (Request.unlink path) fs G =
      plain-Rel (unlink_callback U path) fs (unlink_callback-Keeps U F path)
  serve-Rel (Request.rename old_path new_path flags) fs G =
      plain-Rel (rename_callback U old_path new_path flags) fs
        (rename_callback-Keeps U F old_path new_path flags)
  serve-Rel Request.statfs fs G =
      filling-Rel (no_space U) space (statfs_callback U) fs (statfs_callback-Keeps U F)
  serve-Rel (Request.utimens fi seconds) fs G =
      coded-Rel (utimens_callback U fi seconds) fs
        (utimens_callback-Rel _ G fi seconds fs (λ h e. e))
  serve-Rel (Request.mknod path) fs G =
      plain-Rel (mknod_callback U path) fs (mknod_callback-Keeps U F path)
  serve-Rel Request.chmod fs G = F.same fs
  serve-Rel (Request.elapse d now) fs G = F.of_clock (fs.steady + d) now fs
