-- ===== src/Node/Stale.antt =====
-- `MarcFileNode::truncate` sets `oldFileSize` before the cloud has changed, and `flush` goes by
-- `oldFileSize` to find what the cloud still holds.
use marc_fs.Base.{ℕ, ◌≤◌, ◌≡◌, ap, ◌∙◌, false, arith, length, Text, text_eq}
use marc_fs.Storage
use marc_fs.Storage.{Storage}
use marc_fs.Cloud
use marc_fs.Cloud.{Client, Entry, absent, is_folder, set_entry, off_max}
use marc_fs.Parts.{is_compound_le}
use marc_fs.Node.{Node, remove_all, upload_all}
use marc_fs.Node.Flush.{CanStore}

module _ (S : Storage) (LS : Storage.IsLawful S) (C : Client) (L : Cloud.IsLawful C) (limit : ℕ)
    (path : Text) where
  open L use {entry, IsOnline}
  open LS use {view, IsReady}

  pub remove_all_small : (size : ℕ) → size ≤ limit → remove_all S C limit path size ≡ C.remove path
  unfolding remove_all
  remove_all_small size small = rw (is_compound_le limit size small)

  -- The upload of a small content changes the entry of the path alone.
  upload_small :
      (c : S.State) (w : C.World)
      → IsReady c
      → length (view c) ≤ limit
      → CanStore (view c)
      → IsOnline w
      → entry w path ≡ absent
      → (q : Text) → text_eq q path ≡ false
      → entry (upload_all S C limit path c w).1 q ≡ entry w q
  unfolding upload_all
  upload_small c w ready small can on gone q ne =
      rw (LS.size-view c ready, LS.bytes-view c ready, is_compound_le limit (length (view c)) small)
        (ap (λ f. f q) (L.upload-entry path (view c) 0 off_max w on (rw gone) (ground arith)).2
          ∙ rw ne)
