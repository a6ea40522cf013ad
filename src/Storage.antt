-- ===== src/Storage.antt =====
-- abstract_storage.h: the operations of a backing storage as a record, and, in `IsLawful`, the byte
-- vector that every implementation has to behave as.
pub mod Contents
pub mod Memory
pub mod File
pub mod Instances
pub mod Calls
pub mod Shared
use marc_fs.Base.{
  ℕ, ◌+◌, ◌<◌, ◌≡◌, ◌≢◌, Bool, false, Result, [], ◌++◌, ℤ, pos, Bytes, ok, M, length, is_nil,
}
use marc_fs.Base.Slices.{slice, resize}
use Contents.{written}

-- A C++ object behind `AbstractStorage`. `State` is all that its methods can change. A buffer that a
-- method fills or reads is a list of bytes; `read` gives the count it returns and the bytes copied.
-- `bytes` is no method: it is what `read` gives to a client that the storage is passed to.
pub record Storage : Type 1 where
  pub State : Type 0
  pub open_storage : M State (Unit {0})
  pub empty : State → Bool
  pub size : State → ℕ
  pub read : ℕ → ℕ → M State (ℤ × Bytes)
  pub write : Bytes → ℕ → M State ℤ
  pub append : Bytes → State → State
  pub read_fully : State → Result Bytes
  pub clear : State → State
  pub truncate : ℕ → M State (Unit {0})
  pub bytes : State → Bytes

-- Between `open` and `clear` the storage is the byte vector `view`. Counts are `int`s, so the laws
-- of `read` and `write` bound them. `MemoryStorage` reads nothing just at the end of the vector, nor
-- all of an empty one, without touching an element that is not there, so the laws leave these out.
pub record IsLawful (S : Storage) : Type 1 where
  pub view : S.State → Bytes
  pub IsFresh : S.State → Type 0
  pub IsReady : S.State → Type 0
  pub open-IsReady :
      (s : S.State)
      → IsFresh s
      → ((S.open_storage s).0 ≡ ok tt)
        × IsReady (S.open_storage s).1
        × (view (S.open_storage s).1 ≡ [])
  pub empty-view : (s : S.State) → IsReady s → S.empty s ≡ is_nil (view s)
  pub size-view : (s : S.State) → IsReady s → S.size s ≡ length (view s)
  pub read-view :
      (n offset : ℕ) (s : S.State)
      → IsReady s
      → n < 0x8000_0000
      → offset + n < 0x8000_0000_0000_0000
      → offset ≢ length (view s)
      → S.read n offset s
        ≡ (ok (pos (length (slice offset n (view s))), slice offset n (view s)), s)
  pub write-view :
      (buf : Bytes) (offset : ℕ) (s : S.State)
      → IsReady s
      → 0 < length buf
      → offset + length buf < 0x8000_0000
      → ((S.write buf offset s).0 ≡ ok (pos (length buf)))
        × IsReady (S.write buf offset s).1
        × (view (S.write buf offset s).1 ≡ written buf offset (view s))
  pub append-view :
      (buf : Bytes) (s : S.State)
      → IsReady s
      → IsReady (S.append buf s) × (view (S.append buf s) ≡ view s ++ buf)
  pub read_fully-view :
      (s : S.State) → IsReady s → is_nil (view s) ≡ false → S.read_fully s ≡ ok (view s)
  pub bytes-view : (s : S.State) → IsReady s → S.bytes s ≡ view s
  pub clear-IsFresh : (s : S.State) → IsReady s → IsFresh (S.clear s)
  pub truncate-view :
      (n : ℕ) (s : S.State)
      → IsReady s
      → ((S.truncate n s).0 ≡ ok tt)
        × IsReady (S.truncate n s).1
        × (view (S.truncate n s).1 ≡ resize n 0 (view s))
