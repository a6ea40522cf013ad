-- ===== src/Node/Open.antt =====
-- `MarcFileNode::open` over a lawful storage and a lawful client.
use marc_fs.Base.{
  ℕ, zero, suc, ◌+◌, ◌≤◌, ◌<◌, ◌≡◌, refl, sym, ap, subst, ◌∙◌, inl, inr, true, false, ◌++◌, arith,
  if◌then◌else◌, Bool-cases, length, Result, ok, Bytes, Text,
}
use marc_fs.Storage
use marc_fs.Storage.{Storage}
use marc_fs.Cloud
use marc_fs.Cloud.{Client, file, Entry}
use marc_fs.Cloud.Entries.{bind_ok}
use marc_fs.Parts.{part_name, is_compound, part_count, for_parts}
use marc_fs.Parts.Blocks.{block, blocks, blocks_all}
use marc_fs.Node.{Node, Job, fetch, download_all, open_node}
use marc_fs.Node.Exact.{IsExact}
use mathlib.Core.List.{append_assoc, append-nil}

module _ (S : Storage) (LS : Storage.IsLawful S) (C : Client) (L : Cloud.IsLawful C)
    (limit : ℕ) where
  open L use {entry, IsOnline}
  open LS use {view, IsReady, IsFresh}

  -- A call succeeded, appended `b` to the node's content and changed nothing else.
  pub record Appends (b : Bytes) (n : Node S) (w : C.World) (r : Result (Unit {0}) × Job S C limit)
      : Type 0 where
    pub done : r.0 ≡ ok tt
    pub node : r.1.0 ≡ record n { content = r.1.0.content }
    pub ready : IsReady r.1.0.content
    pub bytes : view r.1.0.content ≡ view n.content ++ b
    pub online : IsOnline r.1.1
    pub same : entry r.1.1 ≡ entry w

  fetch-Appends :
      (name : Text) (b : Bytes) (n : Node S) (w : C.World)
      → IsReady n.content
      → IsOnline w
      → entry w name ≡ file b
      → Appends b n w (fetch S C limit name (n, w))
  unfolding fetch
  fetch-Appends name b n w ready on e =
      let d = L.download-entry name b w on e in
      let a = LS.append-view (C.download name w).0 n.content ready in
      record {
        done = d.1;
        node = refl;
        ready = a.0;
        bytes = a.1 ∙ ap (λ x. view n.content ++ x) d.0;
        online = d.2;
        same = d.3;
      }

  Appends-append :
      {b c : Bytes} {n : Node S} {w : C.World} (r s : Result (Unit {0}) × Job S C limit)
      → Appends b n w r
      → Appends c r.1.0 r.1.1 s
      → Appends (b ++ c) n w s
  Appends-append {b} {c} {n} {w} r s x y = record {
    done = y.done;
    node = y.node ∙ ap (λ (m : Node S). record m { content = s.1.0.content }) x.node;
    ready = y.ready;
    bytes = y.bytes ∙ (ap (λ v. v ++ c) x.bytes ∙ append_assoc (view n.content) b c);
    online = y.online;
    same = y.same ∙ x.same;
  }

  fetch_parts-Appends :
      (path : Text) (body : Bytes) (left i : ℕ) (n : Node S) (w : C.World)
      → IsReady n.content
      → IsOnline w
      → ((j : ℕ) → i ≤ j → j < i + left → entry w (part_name path j) ≡ file (block limit body j))
      → Appends
          (blocks limit body left i)
          n
          w
          (for_parts (λ idx. fetch S C limit (part_name path idx)) left i (n, w))
  unfolding for_parts blocks
  fetch_parts-Appends path body zero i n w ready on h = record {
    done = refl;
    node = refl;
    ready = ready;
    bytes = sym (append-nil (view n.content));
    online = on;
    same = refl;
  }
  fetch_parts-Appends path body (suc left) i n w ready on h =
      let x =
        fetch-Appends (part_name path i) (block limit body i) n w ready on
          (h i (omega arith) (omega arith)) in
      let r = fetch S C limit (part_name path i) (n, w) in
      let y =
        fetch_parts-Appends path body left (suc i) r.1.0 r.1.1 x.ready x.online
          (λ j p q. ap (λ f. f (part_name path j)) x.same ∙ h j (omega arith) (omega arith)) in
      let rest = for_parts (λ idx. fetch S C limit (part_name path idx)) left (suc i) in
      subst (Appends (block limit body i ++ blocks limit body left (suc i)) n w)
        (sym (bind_ok (fetch S C limit (part_name path i)) rest (n, w) x.done))
        (Appends-append r (rest r.1) x y)

  -- `download_all` at a size of its own.
  abbrev download_sized : Text → ℕ → Job S C limit → Result (Unit {0}) × Job S C limit
  download_sized path size s =
      if is_compound limit size
      then for_parts (λ idx. fetch S C limit (part_name path idx)) (part_count limit size) 0 s
      else fetch S C limit path s

  download_sized-Appends :
      (path : Text) (body : Bytes) (n : Node S) (w : C.World)
      → 0 < limit
      → IsReady n.content
      → IsOnline w
      → IsExact limit (entry w) path body
      → Appends body n w (download_sized path (length body) (n, w))
  download_sized-Appends path body n w lim ready on x =
      elim (Bool-cases (is_compound limit (length body))) [
        | inl big ↦
            let parts =
              fetch_parts-Appends path body (part_count limit (length body)) 0 n w ready on
                λ j p q. ground (arith, x.parts j) in
            rw big (
              subst
                (λ b. Appends b n w (
                  for_parts (λ idx. fetch S C limit (part_name path idx))
                    (part_count limit (length body)) 0 (n, w)))
                (blocks_all limit body lim) parts)
        | inr small ↦ rw small (fetch-Appends path body n w ready on (ground (arith, x.whole)))
      ]

  pub download_all-Appends :
      (path : Text) (body : Bytes) (n : Node S) (w : C.World)
      → 0 < limit
      → IsReady n.content
      → IsOnline w
      → n.old_size ≡ length body
      → IsExact limit (entry w) path body
      → Appends body n w (download_all S C limit path (n, w))
  unfolding download_all
  download_all-Appends path body n w lim ready on size x =
      subst (λ k. Appends body n w (download_sized path k (n, w))) (sym size)
        (download_sized-Appends path body n w lim ready on x)

  -- What opening leaves: an open node with the content `body`, and the cloud as it was.
  pub record IsOpened (body : Bytes) (n : Node S) (w : C.World)
      (r : Result (Unit {0}) × Job S C limit) : Type 0 where
    pub done : r.0 ≡ ok tt
    pub node : r.1.0 ≡ record n { content = r.1.0.content; opened = true }
    pub ready : IsReady r.1.0.content
    pub bytes : view r.1.0.content ≡ body
    pub online : IsOnline r.1.1
    pub same : entry r.1.1 ≡ entry w

  open_node_steps :
      (path : Text) (n : Node S) (w : C.World)
      → n.opened ≡ false
      → (S.open_storage n.content).0 ≡ ok tt
      → open_node S C limit path (n, w)
        ≡ download_all S C limit path
            (record n { content = (S.open_storage n.content).1; opened = true }, w)
  unfolding open_node
  open_node_steps path n w shut done = ground arith

  -- Over a working connection, opening a closed node whose size is that of the file which the
  -- cloud holds exactly succeeds: the node is open with exactly this file as content, in one piece
  -- or from its parts, and the cloud is unchanged.
  pub open_node-IsOpened :
      (path : Text) (body : Bytes) (n : Node S) (w : C.World)
      → 0 < limit
      → n.opened ≡ false
      → IsFresh n.content
      → n.old_size ≡ length body
      → IsOnline w
      → IsExact limit (entry w) path body
      → IsOpened body n w (open_node S C limit path (n, w))
  open_node-IsOpened path body n w lim shut new size on x =
      let o = LS.open-IsReady n.content new in
      let m : Node S = record n { content = (S.open_storage n.content).1; opened = true } in
      let d = download_all-Appends path body m w lim o.1 on size x in
      subst (IsOpened body n w) (sym (open_node_steps path n w shut o.0)) (record {
        done = d.done;
        node = d.node;
        ready = d.ready;
        bytes = d.bytes ∙ ap (λ v. v ++ body) o.2;
        online = d.online;
        same = d.same;
      })

  -- A node that takes its file for one in one piece opens such a file, whatever size it has noted.
  pub open_node-whole :
      (path : Text) (body : Bytes) (n : Node S) (w : C.World)
      → n.opened ≡ false
      → IsFresh n.content
      → is_compound limit n.old_size ≡ false
      → IsOnline w
      → entry w path ≡ file body
      → IsOpened body n w (open_node S C limit path (n, w))
  unfolding download_all
  open_node-whole path body n w shut new small on e =
      let o = LS.open-IsReady n.content new in
      let m : Node S = record n { content = (S.open_storage n.content).1; opened = true } in
      let d = fetch-Appends path body m w o.1 on e in
      let one =
        open_node_steps path n w shut o.0
        ∙ ap
            (λ b.
              if b
              then for_parts (λ idx. fetch S C limit (part_name path idx))
                  (part_count limit n.old_size) 0 (m, w)
              else fetch S C limit path (m, w))
            small in
      subst (IsOpened body n w) (sym one) (record {
        done = d.done;
        node = d.node;
        ready = d.ready;
        bytes = d.bytes ∙ ap (λ v. v ++ body) o.2;
        online = d.online;
        same = d.same;
      })

  -- A second open of an open node does nothing.
  pub open_node_again :
      (path : Text) (n : Node S) (w : C.World)
      → n.opened ≡ true
      → open_node S C limit path (n, w) ≡ (ok tt, (n, w))
  unfolding open_node
  open_node_again path n w h = rw h
