-- ===== src/Fuse.antt =====
-- main.cpp, the table of callbacks, and what FUSE makes of it: one request after another, each answered
-- by its callback. Requests that run at once share the pool and the cache, see `ObjectPool.Threads` and
-- `Cache.Threads`. The buffers that FUSE passes are zeroed.
pub mod Frames
pub mod Handles
pub mod Waiting
pub mod Sessions
pub mod Expiry
use marc_fs.Base.{
  ℕ, ◌+◌, Option, none, some, List, [], ◌∷◌, ◌==◌, if◌then◌else◌, false, Bool, ℤ, pos, undefined,
  Result, ok, fail, M, bind_result, ◌>>=◌, Bytes, Text, text_eq, codes,
}
use marc_fs.Stat.{Stat, zero_stat}
use marc_fs.Hooks.{Setup, Handle, Fs, With}
use marc_fs.Hooks.Attributes.{getattr_callback, readdir_callback, statfs_callback, StatVfs, Filled}
use marc_fs.Hooks.Files.{
  open_callback, opendir_callback, releasedir_callback, read_callback, write_callback,
  utimens_callback, chmod_callback, release_callback, flush_callback, truncate_callback,
}
use marc_fs.Hooks.Names.{
  mkdir_callback, mknod_callback, rmdir_callback, unlink_callback, rename_callback,
}

-- A request, under the name that `fuse_operations` has for it, with the arguments that the callback
-- looks at; or time that passes between two of them: so many nanoseconds of the steady clock, and what
-- the clock of the day then reads. `fi` is the address in `fi->fh`, where a `fuse_file_info` with one is passed.
pub data Request : Type 0 where
  getattr : Text → Option ℕ → Request
  opendir : Request
  readdir : Text → Request
  releasedir : ℕ → Request
  open_file : Text → Request
  read : ℕ → ℕ → ℕ → Request
  write : ℕ → Bytes → ℕ → Request
  flush : Text → ℕ → Request
  release : ℕ → Request
  mkdir : Text → Request
  rmdir : Text → Request
  truncate : Text → ℕ → Option ℕ → Request
  unlink : Text → Request
  rename : Text → Text → ℕ → Request
  statfs : Request
  utimens : Option ℕ → ℤ → Request
  mknod : Text → Request
  chmod : Request
  elapse : ℕ → ℤ → Request

module _ (U : Setup) where
  -- What a callback returns, with the buffer that it fills, if it has one.
  pub data Reply : Type 0 where
    code : ℤ → Reply
    stat : ℤ → Stat → Reply
    listing : ℤ → Filled U → Reply
    handle : ℤ → Option ℕ → Reply
    bytes : ℤ → Bytes → Reply
    space : ℤ → StatVfs U → Reply

  abbrev pub no_space : StatVfs U
  no_space = record { bsize = 0; total_blocks = 0; bfree = 0; bavail = 0; namemax = 0 }

  -- A callback with the buffer that it is given.
  abbrev pub filling : {A : Type 0} → A → (ℤ → A → Reply) → M (With U A) ℤ → M (Fs U) Reply
  filling a reply m fs =
      let (r, t) = m (fs, a) in bind_result (λ z s. (ok (reply z t.1), s)) (r, t.0)

  abbrev pub plain : M (With U (Unit {0})) ℤ → M (Fs U) Reply
  plain = filling tt (λ z _. code z)

  abbrev pub coded : M (Fs U) ℤ → M (Fs U) Reply
  coded m fs = bind_result (λ z s. (ok (code z), s)) (m fs)

  -- An address where no object is. The root's stat does not look at it.
  abbrev pub stat_object : Text → Option (Handle U) → M (Fs U) Reply
  stat_object path (some o) = filling zero_stat stat (getattr_callback U path (some o))
  stat_object path none =
      if text_eq path (codes "/")
      then filling zero_stat stat (getattr_callback U path none)
      else λ fs. (fail undefined, fs)

  abbrev pub stat_at : Text → Option ℕ → M (Fs U) Reply
  stat_at path none fs = filling zero_stat stat (getattr_callback U path none) fs
  stat_at path (some h) fs = stat_object path (fs.handles h) fs

  unfoldable pub serve : Request → M (Fs U) Reply
  serve (getattr path fi) = stat_at path fi
  serve opendir = filling none handle (opendir_callback U)
  serve (readdir path) = filling [] listing (readdir_callback U path)
  serve (releasedir h) = coded (releasedir_callback U h)
  serve (open_file path) = filling none handle (open_callback U path)
  serve (read h size offset) =
      λ fs. bind_result (λ r s. (ok (bytes r.0 r.1), s)) (read_callback U h size offset fs)
  serve (write h buf offset) = coded (write_callback U h buf offset)
  serve (flush path h) = plain (flush_callback U path h)
  serve (release h) = coded (release_callback U h)
  serve (mkdir path) = plain (mkdir_callback U path)
  serve (rmdir path) = plain (rmdir_callback U path)
  serve (truncate path size fi) = plain (truncate_callback U path size fi)
  serve (unlink path) = plain (unlink_callback U path)
  serve (rename old_path new_path flags) = plain (rename_callback U old_path new_path flags)
  serve statfs = filling no_space space (statfs_callback U)
  serve (utimens fi seconds) = coded (utimens_callback U fi seconds)
  serve (mknod path) = plain (mknod_callback U path)
  serve chmod = coded (chmod_callback U)
  serve (elapse d now) = λ fs. (ok (code (pos 0)), record fs { steady = fs.steady + d; time = now })

  -- An exception that leaves a callback ends the program.
  unfoldable pub serve_all : List Request → M (Fs U) (List Reply)
  serve_all [] fs = (ok [], fs)
  serve_all (r ∷ rs) fs = (serve r >>= λ x. serve_all rs >>= λ xs s. (ok (x ∷ xs), s)) fs

-- The open object that a request may change.
unfoldable pub named : Request → Option ℕ
named (getattr path fi) = none
named (releasedir h) = some h
named (read h size offset) = some h
named (write h buf offset) = some h
named (flush path h) = some h
named (release h) = some h
named (truncate path size fi) = fi
named (utimens fi seconds) = fi
named _ = none
