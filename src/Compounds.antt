-- ===== src/Compounds.antt =====
-- fuse_hooks.cpp, `handleCompounds`: the parts of a file are listed as one file.
pub mod Match
pub mod Totals
use marc_fs.Base.{
  ◌+◌, ◌%◌, Bool, true, false, not, ◌&&◌, Option, none, some, List, ◌∷◌, ◌++◌, map, ◌==◌,
  if◌then◌else◌, is_nil, u64_mod, Text, [],
}
use marc_fs.Base.Decimal.{all_digits}
use marc_fs.Dict.{lookup, insert}
use marc_fs.CloudFile.{CloudFile, get_name, set_name, get_size, set_size}
use marc_fs.Parts.{suffix}

-- What follows a prefix of the text.
abbrev pub strip : Text → Text → Option Text
strip [] t = some t
strip (p ∷ ps) [] = none
strip (p ∷ ps) (c ∷ cs) = if p == c then strip ps cs else none

-- `(\.marcfs-part-)(\d+)`
unfoldable pub is_part_suffix : Text → Bool
is_part_suffix t = elim (strip suffix t) [
  | none ↦ false
  | some ds ↦ not (is_nil ds) && all_digits ds
]

-- `.` matches no line break.
abbrev pub is_line : Text → Bool
is_line [] = true
is_line (c ∷ cs) = not (c == 10) && (not (c == 13) && is_line cs)

-- What stands before the first place where the rest is such a suffix.
unfoldable pub before_suffix : Text → Option Text
before_suffix [] = none
before_suffix (c ∷ cs) =
    if is_part_suffix (c ∷ cs)
    then some []
    else elim (before_suffix cs) [ none ↦ none | some p ↦ some (c ∷ p) ]

-- `COMPOUND_REGEX`, `(.+)(\.marcfs-part-)(\d+)`, with what its first group matches. The suffix and the
-- digits can stand in one place only, so that greed makes no difference.
unfoldable pub match_compound : Text → Option Text
match_compound name = elim (before_suffix name) [
  | none ↦ none
  | some p ↦ if not (is_nil p) && is_line p then some p else none
]

abbrev pub Compounds : Type 0
Compounds = List (Text × CloudFile)

-- A part of a file that is known, or the first one of a file.
unfoldable pub add_part : Text → CloudFile → Compounds → Option CloudFile → Compounds
unfolding get_size set_size set_name
add_part orig file compounds none = insert orig (set_name orig file) compounds
add_part orig file compounds (some complex) =
    insert orig (set_size ((get_size complex + get_size file) % u64_mod) complex) compounds

-- The pass of `remove_if`: the entries that stay, in their order, and the files put together.
unfoldable pub collapse : List CloudFile → Compounds → List CloudFile × Compounds
unfolding get_name
collapse [] compounds = ([], compounds)
collapse (file ∷ files) compounds = elim (match_compound (get_name file)) [
  | none ↦ let rest = collapse files compounds in (file ∷ rest.0, rest.1)
  | some orig ↦ collapse files (add_part orig file compounds (lookup orig compounds))
]

-- `order` is the order in which the hash map is walked.
unfoldable pub handle_compounds : (Compounds → Compounds) → List CloudFile → List CloudFile
handle_compounds order files =
    let (kept, compounds) = collapse files [] in kept ++ map (λ (_, cf). cf) (order compounds)
