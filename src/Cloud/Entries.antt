-- ===== src/Cloud/Entries.antt =====
-- What the calls do to the cloud's entries, one after the other: sequencing, and loops over parts.
use marc_fs.Base.{
  ℕ, zero, suc, ◌+◌, ◌≤◌, ◌<◌, ◌≡◌, refl, sym, ap, subst, ◌∙◌, false, ◌&&◌, arith, ltb, leb,
  if◌then◌else◌, Exc, Result, ok, fail, M, bind_result, ◌>>◌, Bytes, Text, text_eq,
}
use marc_fs.Cloud.{Client, IsLawful, Entry, absent, file, is_folder, set_entry}
use marc_fs.Parts.{part_name, for_parts}
use marc_fs.Parts.Names.{text_eq-part_name}

-- A call that succeeds is followed by the rest.
pub bind_ok :
    {S A : Type 0} (m : M S (Unit {0})) (k : M S A) (s : S)
    → (m s).0 ≡ ok tt
    → (m >> k) s ≡ k (m s).1
bind_ok m k s e i = bind_result (λ _. k) (e i, (m s).1)

-- A call that throws ends the sequence.
pub bind_fail :
    {S : Type 0} {x : Exc} (m k : M S (Unit {0})) (s : S)
    → (m s).0 ≡ fail x
    → (m >> k) s ≡ (fail x, (m s).1)
bind_fail m k s e i = bind_result (λ _. k) (e i, (m s).1)

-- Parts `i` to `i + left - 1` of a file, set one after the other.
unfoldable pub set_parts : Text → (ℕ → Entry) → ℕ → ℕ → (Text → Entry) → Text → Entry
set_parts path e zero i f = f
set_parts path e (suc left) i f =
    set_parts path e left (suc i) (set_entry (part_name path i) (e i) f)

pub set_parts-part_name :
    (path : Text) (e : ℕ → Entry) (left i j : ℕ) (f : Text → Entry)
    → set_parts path e left i f (part_name path j)
      ≡ (if leb i j && ltb j (i + left) then e j else f (part_name path j))
unfolding set_parts
set_parts-part_name path e zero i j f = ground arith
set_parts-part_name path e (suc left) i j f =
    set_parts-part_name path e left (suc i) j (set_entry (part_name path i) (e i) f)
    ∙ ground (arith, text_eq-part_name path j i, λ (p : i ≡ j). ap e p)

pub set_parts-other :
    (path : Text) (e : ℕ → Entry) (left i : ℕ) (f : Text → Entry) (q : Text)
    → ((j : ℕ) → text_eq q (part_name path j) ≡ false)
    → set_parts path e left i f q ≡ f q
unfolding set_parts
set_parts-other path e zero i f q h = refl
set_parts-other path e (suc left) i f q h =
    set_parts-other path e left (suc i) (set_entry (part_name path i) (e i) f) q h ∙ rw (h i)

module _ (C : Client) (L : IsLawful C) where
  open L use {entry, IsOnline}

  abbrev pub Gives : Result (Unit {0}) × C.World → (Text → Entry) → Type 0
  Gives r f = (r.0 ≡ ok tt) × IsOnline r.1 × (entry r.1 ≡ f)

  -- The files that parts `i` to `i + left - 1` are.
  abbrev pub AreFiles : Text → ℕ → ℕ → (Text → Entry) → Type 0
  AreFiles path left i f =
      (j : ℕ) → i ≤ j → j < i + left → (b : Bytes) × (f (part_name path j) ≡ file b)

  AreFiles-suc :
      (path : Text) (left i : ℕ) (e : Entry) (f : Text → Entry)
      → AreFiles path (suc left) i f
      → AreFiles path left (suc i) (set_entry (part_name path i) e f)
  AreFiles-suc path left i e f h j p q =
      let (b, s) = h j (omega arith) (omega arith) in
      (b, ground (arith, text_eq-part_name path j i))

  pub for_parts-remove :
      (path : Text) (left i : ℕ) (w : C.World)
      → IsOnline w
      → AreFiles path left i (entry w)
      → Gives
          (for_parts (λ idx. C.remove (part_name path idx)) left i w)
          (set_parts path (λ _. absent) left i (entry w))
  unfolding for_parts set_parts
  for_parts-remove path zero i w on h = (refl, on, refl)
  for_parts-remove path (suc left) i w on h =
      let (b, s) = h i (omega arith) (omega arith) in
      let (done, on', e) = L.remove-entry (part_name path i) b w on s in
      let w' = (C.remove (part_name path i) w).1 in
      let rest = for_parts-remove path left (suc i) w' on' (
        subst (AreFiles path left (suc i)) (sym e) (AreFiles-suc path left i absent (entry w) h)) in
      rw
        (bind_ok (C.remove (part_name path i))
          (for_parts (λ idx. C.remove (part_name path idx)) left (suc i)) w done)
        (rest.0, rest.1, rest.2 ∙ ap (set_parts path (λ _. absent) left (suc i)) e)

  -- No entry of the parts is a folder.
  abbrev pub NoFolders : Text → ℕ → ℕ → (Text → Entry) → Type 0
  NoFolders path left i f =
      (j : ℕ) → i ≤ j → j < i + left → is_folder (f (part_name path j)) ≡ false
