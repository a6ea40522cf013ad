-- ===== src/Rest/Transfers.antt =====
-- `ReadData` and the read callback of `MarcRestClient::upload`: how curl fetches the bytes of a part.
pub mod Laws
use marc_fs.Base.{
  ℕ, zero, suc, ◌+◌, ◌-◌, ◌%◌, min, Option, none, some, ◌++◌, if◌then◌else◌, length, is_nil,
  u64_mod, Bytes, [], ◌&&◌, leb, Result, ok, fail, undefined,
}
use marc_fs.Base.Slices.{slice}
use marc_fs.Cloud.{off_max}

-- `content` is the storage's bytes.
pub record ReadData : Type 0 where
  pub content : Bytes
  pub offset : ℕ
  pub count : ℕ

-- The data of an upload from `start` of at most `count` bytes, in `off_t`: a sum that overflows is
-- undefined. A size from 2^63 on would turn negative; no storage holds as much, and it counts as
-- undefined here.
pub read_data : Bytes → ℕ → ℕ → Result ReadData
read_data body start count =
    if leb (length body) off_max && leb (start + count) off_max
    then ok (record { content = body; offset = start; count = min (length body) (start + count) })
    else fail undefined

-- `available` is a `size_t`.
unfoldable read_function : ℕ → ReadData → Bytes × ReadData
read_function requested source =
    let available = (source.count + u64_mod - source.offset) % u64_mod in
    let transferred = min requested available in
    (
      slice source.offset transferred source.content,
      record source { offset = source.offset + transferred },
    )

then_more : Bytes → Option Bytes → Option Bytes
then_more bytes none = none
then_more bytes (some rest) = some (bytes ++ rest)

-- curl asks until it gets nothing; `ask` is what it asks for each time, and `fuel` bounds the number
-- of times.
pub sent : (ℕ → ℕ) → ℕ → ReadData → Option Bytes
unfolding then_more
sent ask zero source = none
sent ask (suc fuel) source =
    let (bytes, source') = read_function (ask fuel) source in
    let rest = sent ask fuel source' in if is_nil bytes then some [] else then_more bytes rest
