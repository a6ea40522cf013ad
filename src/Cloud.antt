-- ===== src/Cloud.antt =====
-- marc_rest_client.h: the calls of `MarcRestClient` that the file system makes, as a record, and in
-- `IsLawful` what they do to the files that the cloud holds.
pub mod Entries
pub mod Runs
use marc_fs.Base.{
  u64_mod, ◌++◌, ℕ, ◌+◌, ◌≤◌, ◌<◌, ◌≡◌, ◌⊎◌, Bool, true, false, ◌&&◌, List, ◌∷◌, ltb, if◌then◌else◌,
  length, Result, ok, M, Bytes, Text, text_eq, [],
}
use marc_fs.Base.Slices.{slice}
use marc_fs.CloudFile.{CloudFile}
use marc_fs.Paths.{parent_of, base_name}

-- utils.h
pub record SpaceInfo : Type 0 where
  pub total : ℕ
  pub used : ℕ

-- `World` is the session and the cloud behind it. `upload` is given the storage's bytes. `download`
-- gives the bytes that it appended to its target, also where it throws then.
pub record Client : Type 1 where
  pub World : Type 0
  pub upload : Text → Bytes → ℕ → ℕ → M World (Unit {0})
  pub download : Text → World → Bytes × (Result (Unit {0}) × World)
  pub remove : Text → M World (Unit {0})
  pub rename : Text → Text → M World (Unit {0})
  pub create : Text → M World (Unit {0})
  pub mkdir : Text → M World (Unit {0})
  pub ls : Text → M World (List CloudFile)
  pub share : Text → M World Text
  pub df : M World SpaceInfo

-- `std::numeric_limits<off_t>::max()`
abbrev pub off_max : ℕ
off_max = 0x7fff_ffff_ffff_ffff

pub data Entry : Type 0 where
  absent : Entry
  file : Bytes → Entry
  folder : Entry

abbrev pub is_folder : Entry → Bool
is_folder folder = true
is_folder _ = false

abbrev pub set_entry : Text → Entry → (Text → Entry) → Text → Entry
set_entry p e f q = if text_eq q p then e else f q

abbrev pub is_ascii : Bytes → Bool
is_ascii [] = true
is_ascii (b ∷ bs) = ltb b 128 && is_ascii bs

-- The part that is sent begins inside the body, and no `off_t` overflows. A body of at most 20 bytes is sent as a whole, in
-- hexadecimal digits.
abbrev pub FitsUpload : Bytes → ℕ → ℕ → Type 0
FitsUpload body start count =
    (start ≤ length body)
    × (length body ≤ off_max)
    × (start + count ≤ off_max)
    × ((20 < length body) ⊎ ((is_ascii body ≡ true) × (start ≡ 0) × (length body ≤ count)))

-- A rename into another folder renames the file in its own folder first.
abbrev pub detour : Text → Text → Text
detour p q = parent_of p ++ base_name q

-- Nothing is in the way there.
abbrev pub HasWay : (Text → Entry) → Text → Text → Type 0
HasWay f p q = (f (detour p q) ≡ absent) ⊎ (detour p q ≡ p)

-- What the cloud holds under a path is `entry`. While the connection works (`IsOnline`), a call on a
-- file succeeds and changes what its path holds and nothing else.
pub record IsLawful (C : Client) : Type 1 where
  pub entry : C.World → Text → Entry
  pub IsOnline : C.World → Type 0
  pub upload-entry :
      (p : Text) (body : Bytes) (start count : ℕ) (w : C.World)
      → IsOnline w
      → is_folder (entry w p) ≡ false
      → FitsUpload body start count
      → ((C.upload p body start count w).0 ≡ ok tt)
        × IsOnline (C.upload p body start count w).1
        × (entry (C.upload p body start count w).1
            ≡ set_entry p (file (slice start count body)) (entry w))
  pub download-entry :
      (p : Text) (b : Bytes) (w : C.World)
      → IsOnline w
      → entry w p ≡ file b
      → ((C.download p w).0 ≡ b)
        × ((C.download p w).1.0 ≡ ok tt)
        × IsOnline (C.download p w).1.1
        × (entry (C.download p w).1.1 ≡ entry w)
  pub remove-entry :
      (p : Text) (b : Bytes) (w : C.World)
      → IsOnline w
      → entry w p ≡ file b
      → ((C.remove p w).0 ≡ ok tt)
        × IsOnline (C.remove p w).1
        × (entry (C.remove p w).1 ≡ set_entry p absent (entry w))
  pub rename-entry :
      (p q : Text) (b : Bytes) (w : C.World)
      → IsOnline w
      → entry w p ≡ file b
      → entry w q ≡ absent
      → HasWay (entry w) p q
      → ((C.rename p q w).0 ≡ ok tt)
        × IsOnline (C.rename p q w).1
        × (entry (C.rename p q w).1 ≡ set_entry q (file b) (set_entry p absent (entry w)))
  pub remove-absent :
      (p : Text) (w : C.World)
      → IsOnline w
      → entry w p ≡ absent
      → IsOnline (C.remove p w).1 × (entry (C.remove p w).1 ≡ entry w)
