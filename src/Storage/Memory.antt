-- ===== src/Storage/Memory.antt =====
-- memory_storage.h and memory_storage.cpp: a storage in a `std::vector<char>`. `undefined` is a copy
-- from or to addresses outside the vector, or the use of an element that is not there, as in
-- `&data[offset]` at the end, also where nothing is copied. Memory never runs out.
pub mod Laws
pub mod Prompt
use marc_fs.Base.{
  ℕ, ◌+◌, ◌-◌, ◌%◌, ◌≡◌, Bool, ◌&&◌, true, false, [], ◌++◌, ℤ, pos, Bytes, Result, ok, fail,
  undefined, M, length, is_nil, if◌then◌else◌, leb, ltb, u64_mod, to_int,
}
use marc_fs.Base.Slices.{slice, overwrite, resize}

pub record MemoryStorage : Type 0 where
  pub bytes : Bytes

pub fresh : MemoryStorage
fresh = record { bytes = [] }

-- Nothing to initialise.
pub open_storage : M MemoryStorage (Unit {0})
open_storage m = (ok tt, m)

pub empty : MemoryStorage → Bool
empty m = is_nil m.bytes

pub size : MemoryStorage → ℕ
size m = length m.bytes

-- `std::copy_n(&data[offset], n, buf)`
copy_out : ℕ → ℕ → MemoryStorage → Result (ℤ × Bytes)
copy_out offset n m =
    if ltb offset (length m.bytes) && leb (offset + n) (length m.bytes)
    then ok (to_int n, slice offset n m.bytes)
    else fail undefined

-- `offset + size` is a `uint64_t`.
pub read : ℕ → ℕ → M MemoryStorage (ℤ × Bytes)
unfolding copy_out
read n offset m =
    let len = length m.bytes in
    if ltb len offset
    then (ok (pos 0, []), m)
    else if ltb len ((offset + n) % u64_mod)
    then (copy_out offset (len - offset) m, m)
    else (copy_out offset n m, m)

-- `std::copy_n(buf, size, &data[offset])`
copy_in : Bytes → ℕ → M MemoryStorage ℤ
copy_in buf offset m =
    if ltb offset (length m.bytes) && leb (offset + length buf) (length m.bytes)
    then (ok (to_int (length buf)), record { bytes = overwrite offset buf m.bytes })
    else (fail undefined, m)

-- `buf` has `size` bytes.
pub write : Bytes → ℕ → M MemoryStorage ℤ
unfolding copy_in
write buf offset m =
    let end = (offset + length buf) % u64_mod in
    copy_in buf offset
      (if ltb (length m.bytes) end then record { bytes = resize end 0 m.bytes } else m)

pub append : Bytes → MemoryStorage → MemoryStorage
append buf m = record { bytes = m.bytes ++ buf }

-- `&data.front()`
pub read_fully : MemoryStorage → Result Bytes
read_fully m = if is_nil m.bytes then fail undefined else ok m.bytes

pub clear : MemoryStorage → MemoryStorage
clear m = record { bytes = [] }

pub truncate : ℕ → M MemoryStorage (Unit {0})
truncate n m = (ok tt, record { bytes = resize n 0 m.bytes })
