-- ===== src/Rest/Params/Decoding.antt =====
-- A server that splits the parameter string at `&` and `=` finds the parameters.
use marc_fs.Base.{
  ℕ, ◌≡◌, refl, sym, ap, ◌∙◌, inl, inr, Bool, true, ◌||◌, List, [], ◌∷◌, ◌++◌, map, arith, ◌==◌,
  if◌then◌else◌, Bool-cases, is_nil, length-eq-zero, Text,
}
use mathlib.Core.List.{append-nil, append_assoc}
use marc_fs.Paths.{none_of}
use marc_fs.Rest.Params.{Params, argument, arguments, joined, param_string}

-- The arguments, each ended by `&`.
abbrev pub fields : Text → Text → List Text
fields acc [] = []
fields acc (c ∷ cs) = if c == 38 then acc ∷ fields [] cs else fields (acc ++ (c ∷ [])) cs

-- The name before the first `=`, and the value behind it.
abbrev pub field : Text → Text × Text
field [] = ([], [])
field (c ∷ cs) = let rest = field cs in if c == 61 then ([], cs) else (c ∷ rest.0, rest.1)

-- The character can stand in an escaped text.
abbrev pub reserved : ℕ → Bool
reserved c = c == 38 || c == 61

-- No end of a field in it.
abbrev is_end : ℕ → Bool
is_end c = c == 38

fields-append :
    (acc a rest : Text)
    → none_of is_end a ≡ true
    → fields acc (a ++ (38 ∷ rest)) ≡ (acc ++ a) ∷ fields [] rest
fields-append acc [] rest h = ap (λ x. x ∷ fields [] rest) (sym (append-nil acc))
fields-append acc (c ∷ a) rest h =
    ground (arith, fields-append (acc ++ (c ∷ [])) a rest, append_assoc acc (c ∷ []) a)

field-argument :
    (name value : Text)
    → none_of reserved name ≡ true
    → field (name ++ (61 ∷ value)) ≡ (name, value)
field-argument [] value h = refl
field-argument (c ∷ name) value h = ground (arith, field-argument name value)

field-name : (name : Text) → none_of reserved name ≡ true → field name ≡ (name, [])
field-name [] h = refl
field-name (c ∷ name) h = ground (arith, field-name name)

-- The parameters that have a name.
abbrev pub named : Params → Params
named [] = []
named ((name, value) ∷ rest) = if is_nil name then named rest else (name, value) ∷ named rest

-- What a server makes of one field.
abbrev pub decoded : (Text → Text) → Text → Text × Text
decoded unescape t = (unescape (field t).0, unescape (field t).1)

abbrev pub parsed : (Text → Text) → Text → Params
parsed unescape t = map (decoded unescape) (fields [] t)

none_of-append :
    (p : ℕ → Bool) (a b : Text)
    → none_of p a ≡ true
    → none_of p b ≡ true
    → none_of p (a ++ b) ≡ true
none_of-append p [] b h k = k
none_of-append p (c ∷ a) b h k = ground (arith, none_of-append p a b)

none_of-reserved : (t : Text) → none_of reserved t ≡ true → none_of is_end t ≡ true
none_of-reserved [] h = refl
none_of-reserved (c ∷ t) h = ground (arith, none_of-reserved t)

module _ (escape unescape : Text → Text)
    (safe : (t : Text) → none_of reserved (escape t) ≡ true) where
  argument-decoded :
      ((t : Text) → unescape (escape t) ≡ t)
      → (name value : Text)
      → decoded unescape (argument escape (escape name) (escape value)) ≡ (name, value)
  unfolding argument
  argument-decoded back name value = elim (Bool-cases (is_nil (escape value))) [
    | inl none_there ↦ rw none_there (
        ground (
          arith,
          back name,
          back value,
          field-name (escape name) (safe name),
          length-eq-zero (escape value),
        ))
    | inr some_there ↦ rw some_there (
        ap (λ x. (unescape x.0, unescape x.1))
          (field-argument (escape name) (escape value) (safe name))
        ∙ ground (arith, back name, back value))
  ]

  argument-safe :
      (name value : Text) → none_of is_end (argument escape (escape name) (escape value)) ≡ true
  unfolding argument
  argument-safe name value = ground (
    arith,
    none_of-reserved (escape name) (safe name),
    none_of-reserved (escape value) (safe value),
    none_of-append is_end (escape name) (61 ∷ escape value),
  )

  joined-parsed :
      ((t : Text) → unescape (escape t) ≡ t)
      → (ps : Params) → parsed unescape (joined (arguments escape ps)) ≡ named ps
  unfolding joined arguments
  joined-parsed back [] = refl
  joined-parsed back ((name, value) ∷ rest) = elim (Bool-cases (is_nil name)) [
    | inl no_name ↦ rw no_name (joined-parsed back rest)
    | inr some_name ↦ rw some_name (
        ap (map (decoded unescape)) (
          fields-append [] (argument escape (escape name) (escape value))
            (joined (arguments escape rest)) (argument-safe name value))
        ∙ (ap (λ x. x ∷ parsed unescape (joined (arguments escape rest)))
              (argument-decoded back name value)
            ∙ ap (λ x. (name, value) ∷ x) (joined-parsed back rest)))
  ]

  -- The fields of a request's parameter string, split at `&` and `=` and unescaped, are the
  -- parameters that have a name, in their order. `escape` leaves neither of the two characters, and
  -- `unescape` undoes it.
  pub param_string-parsed :
      ((t : Text) → unescape (escape t) ≡ t)
      → (ps : Params) → parsed unescape (param_string escape ps) ≡ named ps
  unfolding param_string
  param_string-parsed back [] = refl
  param_string-parsed back (p ∷ ps) = joined-parsed back (p ∷ ps)
