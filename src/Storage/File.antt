-- ===== src/Storage/File.antt =====
-- file_storage.h and file_storage.cpp: a storage in a file of the cache directory. The stream is an
-- open file's name with the directory that it lies in; every method but `open` moves to its own
-- position first, so none is kept. Offsets are below 2^63 (they come from an `off_t`), and the disk
-- does not fail once the file is open, so that the stream's fail bit matters only while it is closed.
pub mod Laws
pub mod Effects
use marc_fs.Base.{
  ℕ, suc, ◌+◌, ◌-◌, ◌%◌, ◌≡◌, Bool, true, false, not, ◌&&◌, Option, none, some, [], ◌∷◌, ◌++◌, ℤ,
  pos, negsuc, Text, Bytes, text_eq, codes, Result, ok, fail, failure, undefined, M, length, is_nil,
  if◌then◌else◌, leb, ltb, u64_mod, to_int, int_max,
}
use marc_fs.Base.Slices.{slice, overwrite, resize}
use marc_fs.Base.Decimal.{to_string}
use marc_fs.Storage.Contents.{written}

-- The cache directory with the counter that all storages share, and the environment's answer to
-- whether files can be created there.
pub record Disk : Type 0 where
  pub cache_dir : Text
  pub counter : ℕ
  pub writable : Bool
  pub files : Text → Option Bytes

pub record FileStorage : Type 0 where
  pub filename : Text
  pub is_open : Bool
  pub disk : Disk

pub fresh : Disk → FileStorage
fresh d = record { filename = []; is_open = false; disk = d }

abbrev pub put_file : Text → Option Bytes → Disk → Disk
put_file name b d = record d { files = λ f. if text_eq f name then b else d.files f }

abbrev pub or_nil : Option Bytes → Bytes
or_nil none = []
or_nil (some b) = b

-- What is stored under the stream's name.
abbrev pub contents : FileStorage → Bytes
contents s = or_nil (s.disk.files s.filename)

abbrev store : Bytes → FileStorage → FileStorage
store b s = record s { disk = put_file s.filename (some b) s.disk }

-- `cacheDir + '/' + name`
unfoldable file_name : Disk → Text
file_name d = d.cache_dir ++ (47 ∷ to_string d.counter)

-- `std::fstream::open` with `trunc`, which fails on a stream that is open already.
open_trunc : FileStorage → Result (Unit {0}) × FileStorage
open_trunc s =
    if not s.is_open && s.disk.writable
    then (ok tt, record (store [] s) { is_open = true })
    else (fail failure, s)

pub open_storage : M FileStorage (Unit {0})
unfolding file_name open_trunc
open_storage s = open_trunc (record s {
  filename = file_name s.disk;
  disk = record s.disk { counter = (s.disk.counter + 1) % u64_mod };
})

pub empty : FileStorage → Bool
empty s = if s.is_open then is_nil (contents s) else true

pub size : FileStorage → ℕ
size s = if s.is_open then length (contents s) else 0

-- Reading stops at the end of the file, and the count is what was read.
pub read : ℕ → ℕ → M FileStorage (ℤ × Bytes)
read n offset s =
    let got = slice offset n (contents s) in
    if s.is_open then (ok (to_int (length got), got), s) else (ok (pos 0, []), s)

-- `a - b` on `int`, which is undefined where it leaves the range.
unfoldable sub_int : ℤ → ℤ → Result ℤ
sub_int (pos a) (pos b) = if leb b a then ok (pos (a - b)) else ok (negsuc (b - a - 1))
sub_int (pos a) (negsuc b) =
    if leb (a + suc b) int_max then ok (pos (a + suc b)) else fail undefined
sub_int (negsuc a) (pos b) = if leb (a + b) int_max then ok (negsuc (a + b)) else fail undefined
sub_int (negsuc a) (negsuc b) = if leb a b then ok (pos (b - a)) else ok (negsuc (a - b - 1))

-- What is returned is the position behind the write less the offset, both as `int`. On a closed
-- stream the position is -1.
pub write : Bytes → ℕ → M FileStorage ℤ
unfolding sub_int
write buf offset s =
    if s.is_open
    then (
      sub_int (to_int (offset + length buf)) (to_int offset),
      if is_nil buf then s else store (written buf offset (contents s)) s,
    )
    else (sub_int (negsuc 0) (to_int offset), s)

pub append : Bytes → FileStorage → FileStorage
append buf s = if s.is_open then store (contents s ++ buf) s else s

-- Nothing can be read through a stream that is closed.
pub bytes : FileStorage → Bytes
bytes s = if s.is_open then contents s else []

pub read_fully : FileStorage → Result Bytes
read_fully s = ok (if s.is_open then contents s else [])

pub clear : FileStorage → FileStorage
clear s = record s { is_open = false; disk = put_file s.filename none s.disk }

-- `resize_file` throws if there is no such file, and the stream is closed by then.
resized : ℕ → FileStorage → Option Bytes → Result (Unit {0}) × FileStorage
resized n s none = (fail failure, record s { is_open = false })
resized n s (some b) = (ok tt, record (store (resize n 0 b) s) { is_open = true })

pub truncate : ℕ → M FileStorage (Unit {0})
unfolding resized
truncate n s = resized n s (s.disk.files s.filename)
