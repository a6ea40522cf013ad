-- ===== src/Node/Exact.antt =====
-- How the cloud holds a file: as one entry, or cut into parts.
use marc_fs.Base.{
  ℕ, ◌≡◌, false, ◌&&◌, arith, ltb, if◌then◌else◌, length, Bytes, Text, text_eq, text_eq_refl,
}
use marc_fs.Cloud.{Entry, absent, file, set_entry}
use marc_fs.Cloud.Entries.{set_parts, set_parts-part_name, set_parts-other}
use marc_fs.Parts.{part_name, is_compound, part_count}
use marc_fs.Parts.Names.{part_name-ne, part_name-ne_sym}
use marc_fs.Parts.Blocks.{block}

-- The entry of part `i`.
abbrev pub part_entry : ℕ → Bytes → ℕ → Entry
part_entry limit body i =
    if is_compound limit (length body) && ltb i (part_count limit (length body))
    then file (block limit body i)
    else absent

-- Under the path and all names of its parts the cloud holds the file's representation and no more.
pub record IsExact (limit : ℕ) (f : Text → Entry) (path : Text) (body : Bytes) : Type 0 where
  pub whole : f path ≡ (if is_compound limit (length body) then absent else file body)
  pub parts : (i : ℕ) → f (part_name path i) ≡ part_entry limit body i

-- The path and its parts are all unused.
pub record IsClear (f : Text → Entry) (path : Text) : Type 0 where
  pub whole : f path ≡ absent
  pub parts : (i : ℕ) → f (part_name path i) ≡ absent

module _ (limit : ℕ) (path : Text) where
  -- The entries after the old representation has been removed.
  abbrev pub cleared : ℕ → (Text → Entry) → Text → Entry
  cleared size f =
      if is_compound limit size
      then set_parts path (λ _. absent) (part_count limit size) 0 f
      else set_entry path absent f

  -- The entries after a new one has been stored.
  abbrev pub stored : Bytes → (Text → Entry) → Text → Entry
  stored body f =
      if is_compound limit (length body)
      then set_parts path (λ i. file (block limit body i)) (part_count limit (length body)) 0 f
      else set_entry path (file body) f

  pub cleared-IsClear :
      (body : Bytes) (f : Text → Entry)
      → IsExact limit f path body
      → IsClear (cleared (length body) f) path
  cleared-IsClear body f x = record {
    whole = ground (
      arith,
      x.whole,
      text_eq_refl path,
      set_parts-other path (λ _. absent) (part_count limit (length body)) 0 f path
          (part_name-ne path),
    );
    parts = λ i. ground (
      arith,
      x.parts i,
      part_name-ne_sym path i,
      set_parts-part_name path (λ _. absent) (part_count limit (length body)) 0 i f,
    );
  }

  pub stored-IsExact :
      (body : Bytes) (f : Text → Entry) → IsClear f path → IsExact limit (stored body f) path body
  stored-IsExact body f x = record {
    whole = ground (
      arith,
      x.whole,
      text_eq_refl path,
      set_parts-other path (λ i. file (block limit body i)) (part_count limit (length body)) 0 f
          path (part_name-ne path),
    );
    parts = λ i. ground (
      arith,
      x.parts i,
      part_name-ne_sym path i,
      set_parts-part_name path (λ i. file (block limit body i)) (part_count limit (length body)) 0 i
          f,
    );
  }

  -- Names that are neither the path nor a part's are left alone.
  pub stored-cleared_other :
      (size : ℕ) (body : Bytes) (f : Text → Entry) (q : Text)
      → text_eq q path ≡ false
      → ((j : ℕ) → text_eq q (part_name path j) ≡ false)
      → stored body (cleared size f) q ≡ f q
  stored-cleared_other size body f q h k = ground (
    arith,
    set_parts-other path (λ _. absent) (part_count limit size) 0 f q k,
    set_parts-other path (λ i. file (block limit body i)) (part_count limit (length body)) 0
        (cleared size f) q k,
  )
