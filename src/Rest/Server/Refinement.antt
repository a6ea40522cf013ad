-- ===== src/Rest/Server/Refinement.antt =====
-- The client over HTTP keeps the promises of the client interface.
use marc_fs.Base.{
  ◌≡◌, ap, ◌∙◌, fun_ext, inl, inr, false, arith, ok, Bytes, Text, text_eq_iff, text_eq_refl,
}
use marc_fs.Cloud
use marc_fs.Cloud.{Entry, absent, file, is_folder, set_entry, detour, HasWay, FitsUpload}
use marc_fs.Rest.Session.{Session}
use marc_fs.Rest.Calls.{rename}
use marc_fs.Rest.Server.{Platform, IsServer, rest_client}
use marc_fs.Rest.Server.Uploads.{upload-Leaves}
use marc_fs.Rest.Server.Downloads.{download-Fetches}
use marc_fs.Rest.Server.Renames.{rename-Leaves, remove-Leaves, remove_absent-same, renamed}

-- Nothing in the way: the detour leaves no trace.
pub renamed-set_entry :
    (p q : Text) (b : Bytes) (f : Text → Entry)
    → HasWay f p q
    → renamed p q b f ≡ set_entry q (file b) (set_entry p absent f)
renamed-set_entry p q b f (inl free) =
    fun_ext (λ x. ground (arith, text_eq_iff x (detour p q), λ (h : x ≡ detour p q). ap f h))
renamed-set_entry p q b f (inr same) =
    ap (λ d. set_entry q (file b) (set_entry d absent (set_entry p absent f))) same
    ∙ fun_ext (λ x. ground arith)

-- A file, and the place on the way of a rename.
pub way-file :
    (p q : Text) (b : Bytes) (f : Text → Entry)
    → f p ≡ file b
    → HasWay f p q
    → is_folder (f (detour p q)) ≡ false
way-file p q b f e (inl free) = ap is_folder free
way-file p q b f e (inr same) = ap (λ x. is_folder (f x)) same ∙ ap is_folder e

module _ (X : Platform) (L : IsServer X) where
  -- What the client does to the server's files.
  abbrev pub rest_client_laws : Cloud.IsLawful (rest_client X)
  rest_client_laws = record {
    entry = λ (c, w). L.entry w;
    IsOnline = λ (c, w). L.IsOnline w;
    upload-entry = λ p body start count (c, w) on free fits.
        upload-Leaves X L p body start count c w on free fits;
    download-entry = λ p b (c, w) on e. download-Fetches X L p b c w on e;
    remove-entry = λ p b (c, w) on e. remove-Leaves X L p b c w on e;
    rename-entry = λ p q b (c, w) on e free way.
        let r =
          rename-Leaves X L p q b c w on e (way-file p q b (L.entry w) e way) (ap is_folder free) in
        (r.0, r.1, r.2 ∙ renamed-set_entry p q b (L.entry w) way);
    remove-absent = λ p (c, w) on e. remove_absent-same X L p c w on e;
  }

  -- A rename into another folder, under another name, of a file beside which another file has the new
  -- name: the call succeeds, and this other file is gone.
  pub rename_destroys :
      (p q : Text) (b other : Bytes) (w : Session X.H)
      → L.IsOnline w.1
      → L.entry w.1 p ≡ file b
      → L.entry w.1 q ≡ absent
      → L.entry w.1 (detour p q) ≡ file other
      → ((rename X.H p q w).0 ≡ ok tt)
        × (L.entry (rename X.H p q w).1.1 q ≡ file b)
        × (L.entry (rename X.H p q w).1.1 (detour p q) ≡ absent)
  rename_destroys p q b other (c, w) on e free held =
      let r = rename-Leaves X L p q b c w on e (ap is_folder held) (ap is_folder free) in
      (
        r.0,
        ap (λ f. f q) r.2 ∙ ground (arith, text_eq_refl q),
        ap (λ f. f (detour p q)) r.2
            ∙ ground (
              arith,
              text_eq_refl (detour p q),
              text_eq_iff (detour p q) q,
              λ (h : detour p q ≡ q). ap (L.entry w) h,
            ),
      )
