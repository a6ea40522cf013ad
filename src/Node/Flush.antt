-- ===== src/Node/Flush.antt =====
-- `MarcFileNode::flush` over a lawful storage and a lawful client.
use marc_fs.Base.{
  ◌*◌, ℕ, zero, suc, ◌+◌, ◌*◌, ◌≤◌, ◌<◌, ◌≡◌, refl, sym, ap, subst, ◌∙◌, ◌⊎◌, inl, inr, true, false,
  arith, if◌then◌else◌, Bool-cases, length, Exc, Result, ok, fail, ◌>>◌, Bytes, Text, text_eq,
}
use marc_fs.Base.Slices.{slice, slice_whole}
use marc_fs.Storage
use marc_fs.Storage.{Storage}
use marc_fs.Cloud
use marc_fs.Cloud.{Client, Entry, absent, file, is_folder, set_entry, FitsUpload, off_max, is_ascii}
use marc_fs.Cloud.Entries.{Gives, NoFolders, bind_ok, set_parts, for_parts-remove}
use marc_fs.Parts.{part_name, is_compound, part_count, is_compound_lt}
use marc_fs.Parts.Names.{text_eq-part_name}
use marc_fs.Parts.Blocks.{part_count-room, block}
use marc_fs.Node.{Node, Job, on_world, remove_all, upload_parts, upload_all, flush, clean}
use marc_fs.Node.Exact.{
  IsExact, IsClear, cleared, stored, cleared-IsClear, stored-IsExact, stored-cleared_other,
}

-- A content that the upload sends unchanged: beyond 20 bytes any, below only ASCII. Below 2^62 bytes
-- no offset of a part overflows.
abbrev pub CanStore : Bytes → Type 0
CanStore body =
    (length body < 0x4000_0000_0000_0000) × ((20 < length body) ⊎ (is_ascii body ≡ true))

module _ (S : Storage) (C : Client) (limit : ℕ) (L : Cloud.IsLawful C) where
  open L use {entry, IsOnline}

  upload_parts-Gives :
      (path : Text) (body : Bytes) (left i offset : ℕ) (w : C.World)
      → offset ≡ i * limit
      → (i + left) * limit ≤ length body + limit
      → length body < 0x4000_0000_0000_0000
      → limit ≤ length body
      → 20 < length body
      → IsOnline w
      → NoFolders C L path left i (entry w)
      → Gives C L
          (upload_parts S C limit path body left i offset w)
          (set_parts path (λ j. file (block limit body j)) left i (entry w))
  unfolding upload_parts set_parts
  upload_parts-Gives path body zero i offset w o room small lim big on h = (refl, on, refl)
  upload_parts-Gives path body (suc left) i offset w o room small lim big on h =
      let (done, on', e) =
        L.upload-entry (part_name path i) body offset limit w on (h i (omega arith) (omega arith))
          (omega arith, omega arith, omega arith, inl big) in
      let w' = (C.upload (part_name path i) body offset limit w).1 in
      let stored_here : entry w'
          ≡ set_entry (part_name path i) (file (block limit body i)) (entry w) =
        e ∙ ap (λ k. set_entry (part_name path i) (file (slice k limit body)) (entry w)) o in
      let h' : NoFolders C L path left (suc i) (entry w') =
        λ j p q. rw stored_here (ground (arith, text_eq-part_name path j i, h j)) in
      let rest =
        upload_parts-Gives path body left (suc i) (offset + limit) w' (omega arith) (omega arith)
          small lim big on' h' in
      rw
        (bind_ok (C.upload (part_name path i) body offset limit)
          (upload_parts S C limit path body left (suc i) (offset + limit)) w done)
        (
          rest.0,
          rest.1,
          rest.2 ∙ ap (set_parts path (λ j. file (block limit body j)) left (suc i)) stored_here,
        )

  pub remove_all-Gives :
      (path : Text) (body : Bytes) (w : C.World)
      → IsOnline w
      → IsExact limit (entry w) path body
      → Gives C L
          (remove_all S C limit path (length body) w)
          (cleared limit path (length body) (entry w))
  unfolding remove_all
  remove_all-Gives path body w on x = elim (Bool-cases (is_compound limit (length body))) [
    | inl big ↦ rw big (
        for_parts-remove C L path (part_count limit (length body)) 0 w on
          λ j p q. (block limit body j, ground (arith, x.parts j)))
    | inr small ↦ rw small (L.remove-entry path body w on (ground (arith, x.whole)))
  ]

  upload_all-Gives :
      (path : Text) (body : Bytes) (c : S.State) (w : C.World)
      → S.size c ≡ length body
      → S.bytes c ≡ body
      → 20 ≤ limit
      → CanStore body
      → IsOnline w
      → IsClear (entry w) path
      → Gives C L (upload_all S C limit path c w) (stored limit path body (entry w))
  unfolding upload_all
  upload_all-Gives path body c w sz rd lim can on x =
      rw (sz, rd)
        (elim (Bool-cases (is_compound limit (length body))) [
          | inl big ↦ rw big (
              upload_parts-Gives path body (part_count limit (length body)) 0 0 w (omega arith)
                (part_count-room limit (length body)) can.0
                (omega (arith, is_compound_lt limit (length body) big)) (large big) on
                (λ j p q. ground (arith, x.parts j)))
          | inr small ↦
              let up =
                L.upload-entry path body 0 off_max w on (ground (arith, x.whole))
                  (omega arith, omega arith, omega arith, fits) in
              rw small (
                up.0,
                up.1,
                up.2
                    ∙ ap (λ b. set_entry path (file b) (entry w))
                        (slice_whole off_max body (omega (arith, can.0))),
              )
        ])
    where
      large : is_compound limit (length body) ≡ true → 20 < length body
      large big = omega (arith, is_compound_lt limit (length body) big)

      fits :
          (20 < length body)
          ⊎ ((is_ascii body ≡ true) × (◌≡◌ {A = ℕ} 0 0) × (length body ≤ off_max))
      fits = ground arith

module _ (S : Storage) (LS : Storage.IsLawful S) (C : Client) (L : Cloud.IsLawful C) (limit : ℕ)
    (path : Text) (old : Bytes) (n : Node S) (w : C.World) where
  open L use {entry, IsOnline}
  open LS use {view, IsReady}

  -- What a flush of a changed node leaves: a clean node with the same content, and a cloud that holds
  -- exactly this content under the path and is otherwise as it was.
  pub record IsFlushed (r : Result (Unit {0}) × Job S C limit) : Type 0 where
    pub done : r.0 ≡ ok tt
    pub node : r.1.0 ≡ record n { dirty = false; old_size = length (view n.content) }
    pub online : IsOnline r.1.1
    pub exact : IsExact limit (entry r.1.1) path (view n.content)
    pub others :
        (q : Text)
        → text_eq q path ≡ false
        → ((j : ℕ) → text_eq q (part_name path j) ≡ false)
        → entry r.1.1 q ≡ entry w q

  flush_steps :
      n.dirty ≡ true
      → (remove_all S C limit path n.old_size w).0 ≡ ok tt
      → (upload_all S C limit path n.content (remove_all S C limit path n.old_size w).1).0 ≡ ok tt
      → flush S C limit path (n, w) ≡ (
        ok tt,
        (
          record n { dirty = false; old_size = S.size n.content },
          (upload_all S C limit path n.content (remove_all S C limit path n.old_size w).1).1,
        ),
      )
  unfolding flush
  flush_steps dirty rm up =
      let w1 = (remove_all S C limit path n.old_size w).1 in
      let remove_job = on_world S C limit (remove_all S C limit path n.old_size) in
      let upload_job = on_world S C limit (upload_all S C limit path n.content) in
      ap
        (λ b. if b then (remove_job >> (upload_job >> clean S C limit)) (n, w) else (ok tt, (n, w)))
        dirty
      ∙ (bind_ok remove_job (upload_job >> clean S C limit) (n, w) rm
          ∙ bind_ok upload_job (clean S C limit) (n, w1) up)

  -- A flush of a changed node whose size makes it remove what the cloud holds.
  pub flush_sized :
      20 ≤ limit
      → IsReady n.content
      → n.dirty ≡ true
      → remove_all S C limit path n.old_size ≡ remove_all S C limit path (length old)
      → CanStore (view n.content)
      → IsOnline w
      → IsExact limit (entry w) path old
      → IsFlushed (flush S C limit path (n, w))
  flush_sized lim ready dirty size can on x =
      let body = view n.content in
      let sized = LS.size-view n.content ready in
      let rm =
        subst (λ m. Gives C L (m w) (cleared limit path (length old) (entry w))) (sym size)
          (remove_all-Gives S C limit L path old w on x) in
      let w1 = (remove_all S C limit path n.old_size w).1 in
      let clear =
        subst (λ f. IsClear f path) (sym rm.2) (cleared-IsClear limit path old (entry w) x) in
      let up =
        upload_all-Gives S C limit L path body n.content w1 sized (LS.bytes-view n.content ready)
          lim can rm.1 clear in
      subst IsFlushed (sym (flush_steps dirty rm.0 up.0)) (record {
        done = refl;
        node = ap (λ k. record n { dirty = false; old_size = k }) sized;
        online = up.1;
        exact =
            subst (λ f. IsExact limit f path body) (sym up.2)
              (stored-IsExact limit path body (entry w1) clear);
        others = λ q ne nes.
            ap (λ f. f q) up.2
            ∙ (ap (λ f. stored limit path body f q) rm.2
                ∙ stored-cleared_other limit path (length old) body (entry w) q ne nes);
      })

  -- Over a working connection and at a limit of at least 20, a flush of a changed open node, whose
  -- old file the cloud holds exactly and whose content can be stored, succeeds: the node is clean
  -- with the same content, and the cloud holds exactly this content under the path, in one piece
  -- or in parts, and is unchanged under every other name.
  pub flush-IsFlushed :
      20 ≤ limit
      → IsReady n.content
      → n.dirty ≡ true
      → n.old_size ≡ length old
      → CanStore (view n.content)
      → IsOnline w
      → IsExact limit (entry w) path old
      → IsFlushed (flush S C limit path (n, w))
  flush-IsFlushed lim ready dirty size can on x =
      flush_sized lim ready dirty (ap (remove_all S C limit path) size) can on x

module _ (S : Storage) (C : Client) (limit : ℕ) (path : Text) (n : Node S) (w : C.World) where
  -- With any client, a flush that throws leaves the node as it was, still marked as changed.
  pub flush_failed :
      (x : Exc) → (flush S C limit path (n, w)).0 ≡ fail x → (flush S C limit path (n, w)).1.0 ≡ n
  unfolding flush
  flush_failed x h = ground arith

  -- A node without changes is not sent.
  pub flush_unchanged : n.dirty ≡ false → flush S C limit path (n, w) ≡ (ok tt, (n, w))
  unfolding flush
  flush_unchanged h = rw h
