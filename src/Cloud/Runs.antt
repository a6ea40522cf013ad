-- ===== src/Cloud/Runs.antt =====
-- Sequences of calls of a client on files, against the same calls of a map from paths to what they hold.
use marc_fs.Base.{ℕ, ◌≡◌, refl, sym, ap, subst, ◌∙◌, false, List, [], ◌∷◌, Result, ok, Bytes, Text}
use marc_fs.Base.Slices.{slice}
use marc_fs.Cloud.{
  Client, IsLawful, Entry, absent, file, folder, is_folder, set_entry, HasWay, FitsUpload,
}

pub data FileCall : Type 0 where
  uploads : Text → Bytes → ℕ → ℕ → FileCall
  downloads : Text → FileCall
  removes : Text → FileCall
  renames : Text → Text → FileCall

-- What the caller sees of it; a download gives bytes too.
pub data Answer : Type 0 where
  done : Result (Unit {0}) → Answer
  got : Bytes → Result (Unit {0}) → Answer

module _ (C : Client) where
  pub perform : FileCall → C.World → Answer × C.World
  perform (uploads p body start count) w = let (r, v) = C.upload p body start count w in (done r, v)
  perform (downloads p) w = let (b, r) = C.download p w in (got b r.0, r.1)
  perform (removes p) w = let (r, v) = C.remove p w in (done r, v)
  perform (renames p q) w = let (r, v) = C.rename p q w in (done r, v)

  pub perform_all : List FileCall → C.World → List Answer × C.World
  unfolding perform
  perform_all [] w = ([], w)
  perform_all (c ∷ cs) w = let (x, v) = perform c w in let (xs, u) = perform_all cs v in (x ∷ xs, u)

abbrev pub bytes_of : Entry → Bytes
bytes_of (file b) = b
bytes_of absent = []
bytes_of folder = []

-- The same calls of the map.
unfoldable pub expected : FileCall → (Text → Entry) → Answer × (Text → Entry)
expected (uploads p body start count) f =
    (done (ok tt), set_entry p (file (slice start count body)) f)
expected (downloads p) f = (got (bytes_of (f p)) (ok tt), f)
expected (removes p) f = (done (ok tt), set_entry p absent f)
expected (renames p q) f =
    (done (ok tt), set_entry q (file (bytes_of (f p))) (set_entry p absent f))

unfoldable pub expect_all : List FileCall → (Text → Entry) → List Answer × (Text → Entry)
unfolding expected
expect_all [] f = ([], f)
expect_all (c ∷ cs) f = let (x, g) = expected c f in let (xs, h) = expect_all cs g in (x ∷ xs, h)

abbrev pub IsFile : (Text → Entry) → Text → Type 0
IsFile f p = (b : Bytes) × (f p ≡ file b)

-- An upload goes to no folder and fits; what is downloaded, removed or renamed is a file; and a rename
-- goes to a free path, and to another folder only when nothing is in its way.
unfoldable pub Permitted : FileCall → (Text → Entry) → Type 0
Permitted (uploads p body start count) f = (is_folder (f p) ≡ false) × FitsUpload body start count
Permitted (downloads p) f = IsFile f p
Permitted (removes p) f = IsFile f p
Permitted (renames p q) f = IsFile f p × (f q ≡ absent) × HasWay f p q

unfoldable pub AllPermitted : List FileCall → (Text → Entry) → Type 0
unfolding Permitted expected
AllPermitted [] f = Unit {0}
AllPermitted (c ∷ cs) f = Permitted c f × AllPermitted cs (expected c f).1

module _ (C : Client) (L : IsLawful C) where
  perform-expected :
      (c : FileCall) (w : C.World)
      → L.IsOnline w
      → Permitted c (L.entry w)
      → ((perform C c w).0 ≡ (expected c (L.entry w)).0)
        × L.IsOnline (perform C c w).1
        × (L.entry (perform C c w).1 ≡ (expected c (L.entry w)).1)
  unfolding perform expected Permitted
  perform-expected (uploads p body start count) w on (free, fits) =
      let (r, on', e) = L.upload-entry p body start count w on free fits in (ap done r, on', e)
  perform-expected (downloads p) w on (b, e) =
      let (bytes, r, on', same) = L.download-entry p b w on e in
      (
        ap (λ x. got x (C.download p w).1.0) bytes
            ∙ (ap (got b) r ∙ ap (λ x. got (bytes_of x) (ok tt)) (sym e)),
        on',
        same,
      )
  perform-expected (removes p) w on (b, e) =
      let (r, on', same) = L.remove-entry p b w on e in (ap done r, on', same)
  perform-expected (renames p q) w on ((b, e), free, way) =
      let (r, on', same) = L.rename-entry p q b w on e free way in
      (
        ap done r,
        on',
        same ∙ ap (λ x. set_entry q (file (bytes_of x)) (set_entry p absent (L.entry w))) (sym e),
      )

  pub perform_all-expected :
      (cs : List FileCall) (w : C.World)
      → L.IsOnline w
      → AllPermitted cs (L.entry w)
      → ((perform_all C cs w).0 ≡ (expect_all cs (L.entry w)).0)
        × L.IsOnline (perform_all C cs w).1
        × (L.entry (perform_all C cs w).1 ≡ (expect_all cs (L.entry w)).1)
  unfolding perform_all expect_all AllPermitted
  perform_all-expected [] w on fine = (refl, on, refl)
  perform_all-expected (c ∷ cs) w on (first, rest) =
      let (answer, on', e) = perform-expected c w on first in
      let v = (perform C c w).1 in
      let (answers, on'', e') =
        perform_all-expected cs v on' (subst (AllPermitted cs) (sym e) rest) in
      (
        ap (λ x. x ∷ (perform_all C cs v).0) answer
            ∙ ap (λ xs. (expected c (L.entry w)).0 ∷ xs)
                (answers ∙ ap (λ f. (expect_all cs f).0) e),
        on'',
        e' ∙ ap (λ f. (expect_all cs f).1) e,
      )
