-- ===== src/Storage/File/Laws.antt =====
-- file_storage.cpp: while the stream is open, a file storage behaves as a byte vector.
use marc_fs.Base.{
  ℕ, ◌+◌, ◌≤◌, ◌<◌, ◌≡◌, true, false, some, [], ◌∷◌, ◌++◌, arith, length, is_nil, pos, to_int,
  to_int_small, undefined, ok, fail, Bytes, text_eq_refl,
}
use marc_fs.Base.Slices.{slice, resize, length-slice}
use marc_fs.Base.Decimal.{to_string}
use marc_fs.Storage.Contents.{written}
use marc_fs.Storage.File.{
  FileStorage, contents, open_storage, empty, size, read, write, append, read_fully, bytes, clear,
  truncate,
}

abbrev pub IsFresh : FileStorage → Type 0
IsFresh s = (s.is_open ≡ false) × (s.disk.writable ≡ true)

-- The stream is open on a file that is there.
abbrev pub IsReady : FileStorage → Type 0
IsReady s =
    (s.is_open ≡ true) × (s.disk.files s.filename ≡ some (contents s)) × (s.disk.writable ≡ true)

pub open-IsReady :
    (s : FileStorage)
    → IsFresh s
    → ((open_storage s).0 ≡ ok tt) × IsReady (open_storage s).1 × (contents (open_storage s).1 ≡ [])
unfolding open_storage
open-IsReady s h =
    ground (arith, text_eq_refl (s.disk.cache_dir ++ (47 ∷ to_string s.disk.counter)))

pub read-slice :
    (n offset : ℕ) (s : FileStorage)
    → IsReady s
    → n < 0x8000_0000
    → read n offset s
      ≡ (ok (pos (length (slice offset n (contents s))), slice offset n (contents s)), s)
unfolding read
read-slice n offset s r h =
    ground (
      arith,
      length-slice offset n (contents s),
      to_int_small (length (slice offset n (contents s))),
    )

pub write-written :
    (buf : Bytes) (offset : ℕ) (s : FileStorage)
    → IsReady s
    → 0 < length buf
    → offset + length buf < 0x8000_0000
    → ((write buf offset s).0 ≡ ok (pos (length buf)))
      × IsReady (write buf offset s).1
      × (contents (write buf offset s).1 ≡ written buf offset (contents s))
unfolding write
write-written [] offset s r h k = absurd (omega arith)
write-written (b ∷ buf) offset s r h k =
    ground (
      arith,
      to_int_small (offset + length (b ∷ buf)),
      to_int_small offset,
      text_eq_refl s.filename,
    )

pub append-contents :
    (buf : Bytes) (s : FileStorage)
    → IsReady s
    → IsReady (append buf s) × (contents (append buf s) ≡ contents s ++ buf)
unfolding append
append-contents buf s r = ground (arith, text_eq_refl s.filename)

pub truncate-resize :
    (n : ℕ) (s : FileStorage)
    → IsReady s
    → ((truncate n s).0 ≡ ok tt)
      × IsReady (truncate n s).1
      × (contents (truncate n s).1 ≡ resize n 0 (contents s))
unfolding truncate
truncate-resize n s r = ground (arith, text_eq_refl s.filename)

-- A write to an open stream of fewer than 2^31 bytes, which begins below 2 GiB and ends at or above
-- it, computes a difference of `int`s that leaves their range; by then the bytes are in the file.
pub write_overflow :
    (buf : Bytes) (offset : ℕ) (s : FileStorage)
    → s.is_open ≡ true
    → offset < 0x8000_0000
    → 0x8000_0000 ≤ offset + length buf
    → offset + length buf < 0x8000_0000 + offset
    → ((write buf offset s).0 ≡ fail undefined)
      × (contents (write buf offset s).1 ≡ written buf offset (contents s))
unfolding write to_int
write_overflow [] offset s o a b c = absurd (omega arith)
write_overflow (x ∷ buf) offset s o a b c = ground (arith, text_eq_refl s.filename)

pub empty-is_nil : (s : FileStorage) → IsReady s → empty s ≡ is_nil (contents s)
unfolding empty
empty-is_nil s r = ground arith

pub size-length : (s : FileStorage) → IsReady s → size s ≡ length (contents s)
unfolding size
size-length s r = ground arith

pub read_fully-contents : (s : FileStorage) → IsReady s → read_fully s ≡ ok (contents s)
unfolding read_fully
read_fully-contents s r = ground arith

pub bytes-contents : (s : FileStorage) → IsReady s → bytes s ≡ contents s
unfolding bytes
bytes-contents s r = ground arith

pub clear-IsFresh : (s : FileStorage) → IsReady s → IsFresh (clear s)
unfolding clear
clear-IsFresh s r = ground arith
