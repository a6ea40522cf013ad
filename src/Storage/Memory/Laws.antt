-- ===== src/Storage/Memory/Laws.antt =====
-- memory_storage.cpp behaves as a byte vector.
use marc_fs.Base.{
  ℕ, ◌+◌, ◌-◌, ◌<◌, ◌≡◌, ◌≢◌, false, refl, [], ◌++◌, pos, Bytes, ok, length, is_nil, u64_mod,
  to_int_small, arith,
}
use marc_fs.Base.Slices.{slice, resize, length-slice, length-resize, slice_beyond, slice_to_end}
use marc_fs.Storage.Contents.{written}
use marc_fs.Storage.Memory.{
  MemoryStorage, open_storage, empty, size, read, write, append, read_fully, clear, truncate,
}

-- A read that does not begin just at the end gives the bytes from the offset on, as far as there are any, and changes nothing; it never
-- touches memory outside the vector.
pub read-slice :
    (n offset : ℕ) (m : MemoryStorage)
    → n < 0x8000_0000
    → offset + n < u64_mod
    → offset ≢ length m.bytes
    → read n offset m ≡ (ok (pos (length (slice offset n m.bytes)), slice offset n m.bytes), m)
unfolding read
read-slice n offset m hn hw inside = ground (
  arith,
  slice_beyond offset n m.bytes,
  slice_to_end offset n m.bytes,
  length-slice offset n m.bytes,
  length-slice offset (length m.bytes - offset) m.bytes,
  to_int_small n,
  to_int_small (length m.bytes - offset),
)

-- A write of some bytes, less than 2 GiB, with an end below 2^64, returns its length and leaves the vector
-- with the bytes at their offset, zeros filling a gap before them.
pub write-written :
    (buf : Bytes) (offset : ℕ) (m : MemoryStorage)
    → 0 < length buf
    → length buf < 0x8000_0000
    → offset + length buf < u64_mod
    → write buf offset m ≡ (ok (pos (length buf)), record { bytes = written buf offset m.bytes })
unfolding write
write-written buf offset m some_bytes hn hw =
    ground (arith, to_int_small (length buf) hn, length-resize (offset + length buf) 0 m.bytes)

pub open-fresh :
    (m : MemoryStorage)
    → m.bytes ≡ []
    → ((open_storage m).0 ≡ ok tt) × Unit {0} × ((open_storage m).1.bytes ≡ [])
unfolding open_storage
open-fresh m h = (refl, tt, h)

pub empty-is_nil : (m : MemoryStorage) → empty m ≡ is_nil m.bytes
unfolding empty
empty-is_nil m = refl

pub size-length : (m : MemoryStorage) → size m ≡ length m.bytes
unfolding size
size-length m = refl

pub append-bytes : (buf : Bytes) (m : MemoryStorage) → (append buf m).bytes ≡ m.bytes ++ buf
unfolding append
append-bytes buf m = refl

pub read_fully-bytes : (m : MemoryStorage) → is_nil m.bytes ≡ false → read_fully m ≡ ok m.bytes
unfolding read_fully
read_fully-bytes m h = rw h

pub clear-bytes : (m : MemoryStorage) → (clear m).bytes ≡ []
unfolding clear
clear-bytes m = refl

pub truncate-resize :
    (n : ℕ) (m : MemoryStorage)
    → ((truncate n m).0 ≡ ok tt) × Unit {0} × ((truncate n m).1.bytes ≡ resize n 0 m.bytes)
unfolding truncate
truncate-resize n m = (refl, tt, refl)
