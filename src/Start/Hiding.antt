-- ===== src/Start/Hiding.antt =====
-- main.cpp, `hideSensitive`: credentials among the arguments are written over. An argument is a C
-- string, given by its characters; a pointer into it is the number of characters before it.
pub mod Values
pub mod Laws
use marc_fs.Base.{
  [], ℕ, ◌+◌, ◌-◌, ◌%◌, Option, none, some, List, ◌∷◌, ltb, leb, if◌then◌else◌, length, drop,
  replicate, u64_mod, Text, codes,
}
use marc_fs.Base.Slices.{overwrite}
use marc_fs.Compounds.{strip}

abbrev pub user_key : Text
user_key = codes "username="

abbrev pub password_key : Text
password_key = codes "password="

abbrev starts_with : Text → Text → ℕ → Option ℕ → Option ℕ
starts_with p t here rest = elim (strip p t) [ none ↦ rest | some _ ↦ some here ]

-- `strstr`: where the first occurrence stands.
unfoldable pub find : Text → Text → Option ℕ
find p [] = starts_with p [] 0 none
find p (c ∷ t) = starts_with p (c ∷ t) 0 (elim (find p t) [ none ↦ none | some k ↦ some (k + 1) ])

-- `size_t len = strlen(data) - rest`, which wraps around.
abbrev pub hidden_length : ℕ → ℕ → ℕ
hidden_length size rest = (size + u64_mod - rest) % u64_mod

-- The loop writes `len` asterisks from `start` on; past the end of the string it writes into memory of
-- others, which is undefined.
abbrev pub asterisks : ℕ → ℕ → Text → Option Text
asterisks len start arg =
    if leb (start + len) (length arg) then some (overwrite start (replicate len 42) arg) else none

-- From the equal sign on, if there is one.
abbrev pub hide_behind : Option ℕ → ℕ → ℕ → Text → Option Text
hide_behind none param rest arg = some arg
hide_behind (some k) param rest arg =
    let start = param + k + 1 in asterisks (hidden_length (length arg - start) rest) start arg

-- `hideSensitiveData`, `param` being the place in `arg` where the parameter starts.
unfoldable pub hide_sensitive_data : ℕ → ℕ → Text → Option Text
hide_sensitive_data param rest arg = hide_behind (find (61 ∷ []) (drop param arg)) param rest arg

-- How much behind the parameter is left alone: the other parameter, if it follows, and a character.
unfoldable pub rest_behind : ℕ → Option ℕ → Text → ℕ
rest_behind here none arg = 0
rest_behind here (some other) arg = if ltb here other then length arg - other + 1 else 0

unfoldable pub hide_at : Option ℕ → Option ℕ → Text → Option Text
hide_at none other arg = some arg
hide_at (some here) other arg = hide_sensitive_data here (rest_behind here other arg) arg

abbrev pub hide_second : Option ℕ → Option ℕ → Option Text → Option Text
hide_second user pasw none = none
hide_second user pasw (some arg) = hide_at pasw user arg

-- One round of the loop of `hideSensitive`. Both places are looked up before anything is written.
unfoldable pub hide_argument : Text → Option Text
hide_argument arg =
    let user = find user_key arg in
    let pasw = find password_key arg in hide_second user pasw (hide_at user pasw arg)

unfoldable pub hide_all : List Text → Option (List Text)
hide_all [] = some []
hide_all (arg ∷ args) = elim (hide_argument arg) [
  | none ↦ none
  | some hidden ↦ elim (hide_all args) [ none ↦ none | some rest ↦ some (hidden ∷ rest) ]
]

-- The loop starts behind the program's name.
unfoldable pub hide_sensitive : List Text → Option (List Text)
hide_sensitive [] = some []
hide_sensitive (name ∷ args) = elim (hide_all args) [ none ↦ none | some rest ↦ some (name ∷ rest) ]
