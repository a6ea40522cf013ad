-- ===== src/Node/Prompt.antt =====
-- The methods of a file node do not wait for ever, over calls that do not.
use marc_fs.Base.{
  ℕ, zero, suc, ◌+◌, ◌≡◌, refl, inl, inr, false, Bool-cases, ℤ, pos, negsuc, Result, ok, fail, M,
  ◌>>◌, Bytes, Text,
}
use marc_fs.Storage.{Storage}
use marc_fs.Cloud.{Client}
use marc_fs.Parts.{part_name, is_compound, part_count, for_parts}
use marc_fs.Node.{
  Node, Job, on_world, fetch, download_all, opening, open_node, remove_all, upload_parts,
  upload_all, clean, flush, remove_node, rename_all, rename_node, read_node, noted, write_node,
  shrunk, truncate_node,
}
use marc_fs.Retry.Prompt.{waits, IsPrompt, >>=-IsPrompt, if-waits}

-- No call on the client waits for ever.
pub record IsPromptClient (C : Client) : Type 1 where
  pub upload : (p : Text) (b : Bytes) (i n : ℕ) → IsPrompt (C.upload p b i n)
  pub download : (p : Text) (w : C.World) → waits (C.download p w).1.0 ≡ false
  pub remove : (p : Text) → IsPrompt (C.remove p)
  pub rename : (p q : Text) → IsPrompt (C.rename p q)
  pub create : (p : Text) → IsPrompt (C.create p)
  pub mkdir : (p : Text) → IsPrompt (C.mkdir p)
  pub ls : (p : Text) → IsPrompt (C.ls p)
  pub share : (p : Text) → IsPrompt (C.share p)
  pub df : IsPrompt C.df

-- No call on the storage does.
pub record IsPromptStorage (S : Storage) : Type 1 where
  pub open_storage : IsPrompt S.open_storage
  pub read : (n offset : ℕ) → IsPrompt (S.read n offset)
  pub write : (buf : Bytes) (offset : ℕ) → IsPrompt (S.write buf offset)
  pub truncate : (n : ℕ) → IsPrompt (S.truncate n)

pub for_parts-IsPrompt :
    {S : Type 0} (f : ℕ → M S (Unit {0})) (left i : ℕ)
    → ((k : ℕ) → IsPrompt (f k))
    → IsPrompt (for_parts f left i)
unfolding for_parts
for_parts-IsPrompt f zero i h s = refl
for_parts-IsPrompt f (suc left) i h s =
    >>=-IsPrompt (f i) (λ _. for_parts f left (suc i)) (h i)
      (λ _. for_parts-IsPrompt f left (suc i) h) s

module _ (S : Storage) (PS : IsPromptStorage S) (C : Client) (PC : IsPromptClient C)
    (limit : ℕ) where
  on_world-IsPrompt : {A : Type 0} (m : M C.World A) → IsPrompt m → IsPrompt (on_world S C limit m)
  on_world-IsPrompt m h (n, w) = h w

  fetch-IsPrompt : (name : Text) → IsPrompt (fetch S C limit name)
  unfolding fetch
  fetch-IsPrompt name (n, w) = PC.download name w

  download_all-IsPrompt : (path : Text) → IsPrompt (download_all S C limit path)
  unfolding download_all
  download_all-IsPrompt path (n, w) = elim (Bool-cases (is_compound limit n.old_size)) [
    | inl big ↦ rw big (
        for_parts-IsPrompt (λ idx. fetch S C limit (part_name path idx))
          (part_count limit n.old_size) 0 (λ k. fetch-IsPrompt (part_name path k)) (n, w))
    | inr small ↦ rw small (fetch-IsPrompt path (n, w))
  ]

  opening-waits :
      (path : Text) (r : Result (Unit {0}) × S.State) (s : Job S C limit)
      → waits r.0 ≡ false
      → waits (opening S C limit path r s).0 ≡ false
  unfolding opening
  opening-waits path (fail e, c) (n, w) h = h
  opening-waits path (ok _, c) (n, w) h = download_all-IsPrompt path _

  pub open_node-IsPrompt : (path : Text) → IsPrompt (open_node S C limit path)
  unfolding open_node
  open_node-IsPrompt path (n, w) =
      if-waits n.opened (ok tt, (n, w)) (opening S C limit path (S.open_storage n.content) (n, w))
        refl (opening-waits path (S.open_storage n.content) (n, w) (PS.open_storage n.content))

  remove_all-IsPrompt : (path : Text) (size : ℕ) → IsPrompt (remove_all S C limit path size)
  unfolding remove_all
  remove_all-IsPrompt path size w = elim (Bool-cases (is_compound limit size)) [
    | inl big ↦ rw big (
        for_parts-IsPrompt (λ idx. C.remove (part_name path idx)) (part_count limit size) 0
          (λ k. PC.remove (part_name path k)) w)
    | inr small ↦ rw small (PC.remove path w)
  ]

  upload_parts-IsPrompt :
      (path : Text) (body : Bytes) (left i offset : ℕ)
      → IsPrompt (upload_parts S C limit path body left i offset)
  unfolding upload_parts
  upload_parts-IsPrompt path body zero i offset w = refl
  upload_parts-IsPrompt path body (suc left) i offset w =
      >>=-IsPrompt (C.upload (part_name path i) body offset limit)
        (λ _. upload_parts S C limit path body left (suc i) (offset + limit))
        (PC.upload (part_name path i) body offset limit)
        (λ _. upload_parts-IsPrompt path body left (suc i) (offset + limit)) w

  upload_all-IsPrompt : (path : Text) (c : S.State) → IsPrompt (upload_all S C limit path c)
  unfolding upload_all
  upload_all-IsPrompt path c w = elim (Bool-cases (is_compound limit (S.size c))) [
    | inl big ↦ rw big (upload_parts-IsPrompt path (S.bytes c) (part_count limit (S.size c)) 0 0 w)
    | inr small ↦ rw small (PC.upload path (S.bytes c) 0 _ w)
  ]

  pub flush-IsPrompt : (path : Text) → IsPrompt (flush S C limit path)
  unfolding flush clean
  flush-IsPrompt path (n, w) =
      let work : M (Job S C limit) (Unit {0}) =
        on_world S C limit (remove_all S C limit path n.old_size)
        >> (on_world S C limit (upload_all S C limit path n.content) >> clean S C limit) in
      if-waits n.dirty (work (n, w)) (ok tt, (n, w))
        (>>=-IsPrompt (on_world S C limit (remove_all S C limit path n.old_size))
          (λ _. on_world S C limit (upload_all S C limit path n.content) >> clean S C limit)
          (on_world-IsPrompt (remove_all S C limit path n.old_size)
            (remove_all-IsPrompt path n.old_size))
          (λ _.
            >>=-IsPrompt (on_world S C limit (upload_all S C limit path n.content))
              (λ _. clean S C limit)
              (on_world-IsPrompt (upload_all S C limit path n.content)
                (upload_all-IsPrompt path n.content))
              (λ _ s. refl))
          (n, w))
        refl

  pub remove_node-IsPrompt : (path : Text) → IsPrompt (remove_node S C limit path)
  unfolding remove_node
  remove_node-IsPrompt path (n, w) = remove_all-IsPrompt path n.old_size w

  pub rename_node-IsPrompt : (old new : Text) → IsPrompt (rename_node S C limit old new)
  unfolding rename_node rename_all
  rename_node-IsPrompt old new (n, w) = elim (Bool-cases (is_compound limit n.old_size)) [
    | inl big ↦ rw big (
        for_parts-IsPrompt (λ idx. C.rename (part_name old idx) (part_name new idx))
          (part_count limit n.old_size) 0 (λ k. PC.rename (part_name old k) (part_name new k)) w)
    | inr small ↦ rw small (PC.rename old new w)
  ]

module _ (S : Storage) (PS : IsPromptStorage S) where
  pub read_node-IsPrompt : (n offset : ℕ) → IsPrompt (read_node S n offset)
  unfolding read_node
  read_node-IsPrompt n offset node = PS.read n offset node.content

  noted-waits :
      (now : ℤ) (r : Result ℤ × Node S) → waits r.0 ≡ false → waits (noted S now r).0 ≡ false
  unfolding noted
  noted-waits now (ok (pos (suc k)), n) h = refl
  noted-waits now (ok (pos zero), n) h = refl
  noted-waits now (ok (negsuc k), n) h = refl
  noted-waits now (fail e, n) h = h

  pub write_node-IsPrompt :
      (now : ℤ) (buf : Bytes) (offset : ℕ) → IsPrompt (write_node S now buf offset)
  unfolding write_node
  write_node-IsPrompt now buf offset n = noted-waits now _ (PS.write buf offset n.content)

  shrunk-waits :
      (size : ℕ) (r : Result (Unit {0}) × Node S)
      → waits r.0 ≡ false
      → waits (shrunk S size r).0 ≡ false
  unfolding shrunk
  shrunk-waits size (ok _, n) h = refl
  shrunk-waits size (fail e, n) h = h

  pub truncate_node-IsPrompt : (size : ℕ) → IsPrompt (truncate_node S size)
  unfolding truncate_node
  truncate_node-IsPrompt size n = shrunk-waits size _ (PS.truncate size n.content)
