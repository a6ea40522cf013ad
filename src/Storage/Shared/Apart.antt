-- ===== src/Storage/Shared/Apart.antt =====
-- Storages that share a cache directory keep to their own files.
use marc_fs.Base.{
  ℕ, ◌+◌, ◌≤◌, ◌<◌, ◌≡◌, ◌≢◌, refl, sym, ap, subst, ◌∙◌, ◌⊎◌, inl, inr, false, List, [], ◌∷◌, ◌++◌,
  arith, length, Text, text_eq, text_eq_iff, u64_mod, ◌==◌, Bool-cases,
}
use marc_fs.Base.Decimal.{to_string, to_string-injective}
use marc_fs.Storage.File.{FileStorage}
use marc_fs.Storage.File.Effects.{
  Effect, place, same-Effect, open-Effect, read-Effect, write-Effect, append-Effect, clear-Effect,
  truncate-Effect, reopen-Effect,
}
use marc_fs.Storage.Instances.{file_storage}
use marc_fs.Storage.Calls.{
  Call, writes, reads, appends, truncates, sizes, empties, reads_fully, reopens, perform,
}
use marc_fs.Storage.Shared.{
  Shared, Stream, unopened, object, put_object, Method, opens, clears, calls, invoke, invoke_on,
  run,
}

drop_prefix : (d a b : Text) → d ++ a ≡ d ++ b → a ≡ b
drop_prefix [] a b e = e
drop_prefix (x ∷ d) a b e = drop_prefix d a b (ground (arith, e))

digits_lem : (m n : ℕ) → ◌≡◌ {A = Text} (47 ∷ to_string m) (47 ∷ to_string n) → m ≡ n
digits_lem m n e = to_string-injective m n (ground (arith, e))

place-injective : (d : Text) (m n : ℕ) → place d m ≡ place d n → m ≡ n
place-injective d m n e = digits_lem m n (drop_prefix d (47 ∷ to_string m) (47 ∷ to_string n) e)

pub place-some : (d : Text) (n : ℕ) → place d n ≢ []
place-some [] n e = absurd (ground (arith, e))
place-some (x ∷ d) n e = absurd (ground (arith, e))

call-Effect :
    (c : Call) (s : FileStorage)
    → s.disk.counter + 1 < u64_mod
    → Effect s (perform file_storage c s).1
unfolding perform
call-Effect (writes buf offset) s h = write-Effect buf offset s
call-Effect (reads n offset) s h = read-Effect n offset s
call-Effect (appends buf) s h = append-Effect buf s
call-Effect (truncates n) s h = truncate-Effect n s
call-Effect sizes s h = same-Effect s
call-Effect empties s h = same-Effect s
call-Effect reads_fully s h = same-Effect s
call-Effect reopens s h = reopen-Effect s h

invoke-Effect :
    (m : Method) (s : FileStorage) → s.disk.counter + 1 < u64_mod → Effect s (invoke m s).1
unfolding invoke
invoke-Effect opens s h = open-Effect s h
invoke-Effect clears s h = clear-Effect s
invoke-Effect (calls c) s h = call-Effect c s h

-- No object has the name, or a number that has been drawn.
IsGiven : Text → ℕ → Text → Type 0
IsGiven dir counter f = (f ≡ []) ⊎ ((n : ℕ) × (n < counter) × (f ≡ place dir n))

abbrev name : Shared → ℕ → Text
name sh i = (sh.streams i).filename

record IsApart (sh : Shared) : Type 0 where
  pub given : (i : ℕ) → IsGiven sh.disk.cache_dir sh.disk.counter (name sh i)
  pub apart : (i j : ℕ) → i ≢ j → name sh i ≡ name sh j → name sh i ≡ []

IsGiven_later :
    {dir dir' : Text} {c c' : ℕ} (f : Text)
    → dir' ≡ dir
    → c ≤ c'
    → IsGiven dir c f
    → IsGiven dir' c' f
unfolding IsGiven
IsGiven_later f e le (inl bare) = inl bare
IsGiven_later f e le (inr (n, lt, at)) = inr (n, omega arith, at ∙ ap (λ d. place d n) (sym e))

-- The next number is nobody's.
next_free : (dir : Text) (c : ℕ) (f : Text) → IsGiven dir c f → place dir c ≢ f
unfolding IsGiven
next_free dir c f (inl bare) e = place-some dir c (e ∙ bare)
next_free dir c f (inr (n, lt, at)) e = absurd (omega (arith, place-injective dir c n (e ∙ at)))

module _ (i : ℕ) (t : FileStorage) (sh : Shared) (x : Effect (object i sh) t) (a : IsApart sh) where
  counter_lem : sh.disk.counter ≤ t.disk.counter
  counter_lem = elim x.named [ inl (e, c) ↦ omega (arith, c) | inr (e, c) ↦ omega (arith, c) ]

  given_new : IsGiven t.disk.cache_dir t.disk.counter t.filename
  unfolding IsGiven
  given_new = elim x.named [
    | inl (e, c) ↦
        subst (IsGiven t.disk.cache_dir t.disk.counter) (sym e)
          (IsGiven_later (name sh i) x.same_dir counter_lem (a.given i))
    | inr (e, c) ↦
        inr (
          sh.disk.counter,
          omega (arith, c),
          e ∙ ap (λ d. place d sh.disk.counter) (sym x.same_dir),
        )
  ]

  -- What object `i` is called now is another name than that of any other.
  apart_new : (j : ℕ) → i ≢ j → t.filename ≡ name sh j → name sh j ≡ []
  apart_new j ne same = elim x.named [
    | inl (e, c) ↦ sym same ∙ (e ∙ a.apart i j ne (sym e ∙ same))
    | inr (e, c) ↦
        absurd (next_free sh.disk.cache_dir sh.disk.counter (name sh j) (a.given j) (sym e ∙ same))
  ]

  put_self : name (put_object i t sh) i ≡ t.filename
  put_self = ground arith

  put_other : (j : ℕ) → i ≢ j → (put_object i t sh).streams j ≡ sh.streams j
  put_other j ne = ground arith

  put_object-IsApart : IsApart (put_object i t sh)
  put_object-IsApart = record {
    given = λ k. elim (Bool-cases (k == i)) [
      | inl here ↦
          let e : k ≡ i = ground arith in
          subst (IsGiven t.disk.cache_dir t.disk.counter)
            (sym (ap (name (put_object i t sh)) e ∙ put_self)) given_new
      | inr other ↦
          let ne : i ≢ k = λ q. absurd (ground (arith, q)) in
          subst (IsGiven t.disk.cache_dir t.disk.counter)
            (sym (ap (λ (s : Stream). s.filename) (put_other k ne)))
            (IsGiven_later (name sh k) x.same_dir counter_lem (a.given k))
    ];
    apart = λ k j ne same. elim (Bool-cases (k == i)) [
      | inl here ↦
          let e : k ≡ i = ground arith in
          let ne' : i ≢ j = λ q. ne (e ∙ q) in
          let eq : t.filename ≡ name sh j =
            sym put_self
            ∙ (ap (name (put_object i t sh)) (sym e)
                ∙ (same ∙ ap (λ s. s.filename) (put_other j ne'))) in
          ap (name (put_object i t sh)) e ∙ (put_self ∙ (eq ∙ apart_new j ne' eq))
      | inr other ↦
          let ne' : i ≢ k = λ q. absurd (ground (arith, q)) in
          let here = ap (λ (s : Stream). s.filename) (put_other k ne') in
          elim (Bool-cases (j == i)) [
            | inl there ↦
                let e : j ≡ i = ground arith in
                let eq : name sh k ≡ t.filename =
                  sym here ∙ (same ∙ (ap (name (put_object i t sh)) e ∙ put_self)) in
                here ∙ apart_new k ne' (sym eq)
            | inr apart ↦
                let nj : i ≢ j = λ q. absurd (ground (arith, q)) in
                here ∙ a.apart k j ne (sym here ∙ (same ∙ ap (λ s. s.filename) (put_other j nj)))
          ]
    ];
  }

  not_text : (f g : Text) → f ≢ g → text_eq f g ≡ false
  not_text f g ne = elim (Bool-cases (text_eq f g)) [
    | inl e ↦ absurd (ne ((text_eq_iff f g).0 e))
    | inr e ↦ e
  ]

  -- The file of another object, which has a name, is as it was.
  put_object-others :
      (j : ℕ) → i ≢ j → name sh j ≢ [] → t.disk.files (name sh j) ≡ sh.disk.files (name sh j)
  put_object-others j ne some_name =
      x.others (name sh j)
        (not_text (name sh j) (name sh i) (λ e. some_name (e ∙ a.apart i j ne (sym e))))
        (not_text (name sh j) t.filename (λ e. some_name (apart_new j ne (sym e))))

step-Effect :
    (i : ℕ) (m : Method) (sh : Shared)
    → sh.disk.counter + 1 < u64_mod
    → Effect (object i sh) (invoke m (object i sh)).1
step-Effect i m sh h = invoke-Effect m (object i sh) h

counter_next : (s t : FileStorage) → Effect s t → t.disk.counter ≤ s.disk.counter + 1
counter_next s t x = elim x.named [ inl (e, c) ↦ omega (arith, c) | inr (e, c) ↦ omega (arith, c) ]

run-IsApart :
    (us : List (ℕ × Method)) (sh : Shared)
    → sh.disk.counter + length us < u64_mod
    → IsApart sh
    → IsApart (run us sh) × ((run us sh).disk.counter ≤ sh.disk.counter + length us)
unfolding run invoke_on
run-IsApart [] sh h a = (a, omega arith)
run-IsApart ((i, m) ∷ us) sh h a =
    let x = step-Effect i m sh (omega arith) in
    let t = (invoke m (object i sh)).1 in
    let next : t.disk.counter ≤ sh.disk.counter + 1 = counter_next (object i sh) t x in
    let (b, le) =
      run-IsApart us (put_object i t sh) (omega arith) (put_object-IsApart i t sh x a) in
    (b, omega (arith, le))

-- No call is one of this object's.
unfoldable pub AllOthers : ℕ → List (ℕ × Method) → Type 0
AllOthers j [] = Unit {0}
AllOthers j ((i, m) ∷ us) = (i ≢ j) × AllOthers j us

-- The object and its file are the same in both states.
abbrev pub IsSame : ℕ → Shared → Shared → Type 0
IsSame j a b =
    (b.streams j ≡ a.streams j)
    × (b.disk.files (a.streams j).filename ≡ a.disk.files (a.streams j).filename)

run-IsSame :
    (j : ℕ) (us : List (ℕ × Method)) (sh : Shared)
    → sh.disk.counter + length us < u64_mod
    → IsApart sh
    → name sh j ≢ []
    → AllOthers j us
    → IsSame j sh (run us sh)
unfolding run invoke_on AllOthers
run-IsSame j [] sh h a some_name others = (refl, refl)
run-IsSame j ((i, m) ∷ us) sh h a some_name (ne, others) =
    let x = step-Effect i m sh (omega arith) in
    let t = (invoke m (object i sh)).1 in
    let s1 = put_object i t sh in
    let next : t.disk.counter ≤ sh.disk.counter + 1 = counter_next (object i sh) t x in
    let kept : s1.streams j ≡ sh.streams j = put_other i t sh x a j ne in
    let same_name = ap (λ (s : Stream). s.filename) kept in
    let (stream, bytes) =
      run-IsSame j us s1 (omega arith) (put_object-IsApart i t sh x a)
        (λ e. some_name (sym same_name ∙ e)) others in
    (
      stream ∙ kept,
      subst (λ f. (run us s1).disk.files f ≡ t.disk.files f) same_name bytes
          ∙ put_object-others i t sh x a j ne some_name,
    )

-- From a start at which no storage has been opened, and as long as the counter of the directory does
-- not wrap around: any calls of any storages that share the directory, in any order; then calls of
-- any storages but one, which has been opened before. This one is still open or closed as it was, on
-- the same file, and what the file holds is unchanged.
pub run-others :
    (j : ℕ) (us vs : List (ℕ × Method)) (sh : Shared)
    → ((i : ℕ) → sh.streams i ≡ unopened)
    → sh.disk.counter + length us + length vs < u64_mod
    → ((run us sh).streams j).filename ≢ []
    → AllOthers j vs
    → IsSame j (run us sh) (run vs (run us sh))
unfolding IsGiven
run-others j us vs sh bare h some_name others =
    let start : IsApart sh = record {
      given = λ i. inl (ap (λ (s : Stream). s.filename) (bare i));
      apart = λ i k ne e. ap (λ (s : Stream). s.filename) (bare i);
    } in
    let (a, le) = run-IsApart us sh (omega arith) start in
    run-IsSame j vs (run us sh) (omega (arith, le)) a some_name others
