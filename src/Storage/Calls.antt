-- ===== src/Storage/Calls.antt =====
-- Sequences of calls of a storage, against the same calls of a vector of bytes.
use marc_fs.Base.{
  ℕ, ◌+◌, ◌<◌, ◌≡◌, ◌≢◌, false, Bool, List, [], ◌∷◌, ◌++◌, ℤ, pos, length, ok, Result, is_nil,
  Bytes,
}
use marc_fs.Base.Slices.{slice, resize}
use marc_fs.Storage.Contents.{written}
use marc_fs.Storage.{Storage}
use marc_fs.Storage.File.Laws as FileLaws

-- A call of an open storage, or `clear` and another `open`.
pub data Call : Type 0 where
  writes : Bytes → ℕ → Call
  reads : ℕ → ℕ → Call
  appends : Bytes → Call
  truncates : ℕ → Call
  sizes : Call
  empties : Call
  reads_fully : Call
  reopens : Call

-- What the caller sees of it.
pub data Answer : Type 0 where
  count : Result ℤ → Answer
  bytes : Result (ℤ × Bytes) → Answer
  done : Result (Unit {0}) → Answer
  number : ℕ → Answer
  flag : Bool → Answer
  content : Result Bytes → Answer
  unseen : Answer

module _ (S : Storage) where
  unfoldable pub perform : Call → S.State → Answer × S.State
  perform (writes buf offset) s = let (r, t) = S.write buf offset s in (count r, t)
  perform (reads n offset) s = let (r, t) = S.read n offset s in (bytes r, t)
  perform (appends buf) s = (unseen, S.append buf s)
  perform (truncates n) s = let (r, t) = S.truncate n s in (done r, t)
  perform sizes s = (number (S.size s), s)
  perform empties s = (flag (S.empty s), s)
  perform reads_fully s = (content (S.read_fully s), s)
  perform reopens s = let (r, t) = S.open_storage (S.clear s) in (done r, t)

  pub perform_all : List Call → S.State → List Answer × S.State
  unfolding perform
  perform_all [] s = ([], s)
  perform_all (c ∷ cs) s = let (x, t) = perform c s in let (xs, u) = perform_all cs t in (x ∷ xs, u)

  -- The storage is opened first.
  pub answers : List Call → S.State → List Answer
  answers cs s = (perform_all cs (S.open_storage s).1).0

-- The same calls of a byte vector.
unfoldable pub expected : Call → Bytes → Answer × Bytes
expected (writes buf offset) b = (count (ok (pos (length buf))), written buf offset b)
expected (reads n offset) b = (bytes (ok (pos (length (slice offset n b)), slice offset n b)), b)
expected (appends buf) b = (unseen, b ++ buf)
expected (truncates n) b = (done (ok tt), resize n 0 b)
expected sizes b = (number (length b), b)
expected empties b = (flag (is_nil b), b)
expected reads_fully b = (content (ok b), b)
expected reopens b = (done (ok tt), [])

pub expect_all : List Call → Bytes → List Answer
unfolding expected
expect_all [] b = []
expect_all (c ∷ cs) b = let (x, d) = expected c b in x ∷ expect_all cs d

-- Counts are within an `int`, no read begins just at the end, and nothing empty is read as a whole.
unfoldable pub Fits : Call → Bytes → Type 0
Fits (writes buf offset) b = (0 < length buf) × (offset + length buf < 0x8000_0000)
Fits (reads n offset) b =
    (n < 0x8000_0000) × (offset + n < 0x8000_0000_0000_0000) × (offset ≢ length b)
Fits reads_fully b = is_nil b ≡ false
Fits _ b = Unit {0}

-- Each call fits what the calls before it leave.
unfoldable pub AllFit : List Call → Bytes → Type 0
unfolding expected
AllFit [] b = Unit {0}
AllFit (c ∷ cs) b = Fits c b × AllFit cs (expected c b).1
