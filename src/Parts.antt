-- ===== src/Parts.antt =====
-- marc_rest_client.h and marc_file_node.cpp: the size above which a file is stored in parts, the
-- parts' names and number, and the loop over them.
pub mod Names
pub mod Blocks
use marc_fs.Base.{
  ℕ, zero, suc, ◌+◌, ◌-◌, ◌/◌, ◌^◌, ◌≤◌, ◌<◌, ◌≡◌, Bool, true, false, ◌++◌, ltb, ltb→lt, lt→ltb,
  le→ltb, M, pure, ◌>>◌, Text, codes,
}
use marc_fs.Base.Decimal.{to_string}

-- `MARCFS_MAX_FILE_SIZE`. The other modules take the limit as a parameter, as the source has a
-- smaller one for tests.
abbrev pub max_file_size : ℕ
max_file_size = 2 ^ 31 - 2 ^ 10

-- `MARCFS_SUFFIX`
abbrev pub suffix : Text
suffix = codes ".marcfs-part-"

unfoldable pub part_name : Text → ℕ → Text
part_name path idx = path ++ (suffix ++ to_string idx)

unfoldable pub is_compound : ℕ → ℕ → Bool
is_compound limit size = ltb limit size

unfoldable pub part_count : ℕ → ℕ → ℕ
part_count limit size = size / limit + 1

-- `for (idx = …; idx < …; ++idx)` over the parts that are left, until a call throws.
unfoldable pub for_parts : {S : Type 0} → (ℕ → M S (Unit {0})) → ℕ → ℕ → M S (Unit {0})
for_parts call zero idx = pure tt
for_parts call (suc left) idx = call idx >> for_parts call left (suc idx)

pub is_compound_lt : (limit size : ℕ) → is_compound limit size ≡ true → limit < size
unfolding is_compound
is_compound_lt limit size h = ltb→lt limit size h

pub is_compound_le : (limit size : ℕ) → size ≤ limit → is_compound limit size ≡ false
unfolding is_compound
is_compound_le limit size h = le→ltb limit size h

pub lt→is_compound : (limit size : ℕ) → limit < size → is_compound limit size ≡ true
unfolding is_compound
lt→is_compound limit size h = lt→ltb limit size h
