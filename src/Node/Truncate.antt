-- ===== src/Node/Truncate.antt =====
-- `MarcFileNode::truncate` of an open node over a lawful storage.
use marc_fs.Base.{ℕ, ◌≡◌, ap, true, ok}
use marc_fs.Base.Slices.{resize}
use marc_fs.Storage
use marc_fs.Storage.{Storage}
use marc_fs.Node.{Node, truncate_node, shrunk}

module _ (S : Storage) (LS : Storage.IsLawful S) where
  open LS use {view, IsReady}

  -- The node is marked as changed, and takes the new size for the one that the cloud holds.
  pub truncate_node-resize :
      (size : ℕ) (n : Node S)
      → IsReady n.content
      → let c = (S.truncate size n.content).1 in
        (truncate_node S size n ≡ (ok tt, record n { content = c; old_size = size; dirty = true }))
        × IsReady c
        × (view c ≡ resize size 0 (view n.content))
  unfolding truncate_node shrunk
  truncate_node-resize size n ready =
      let (done, ready', bytes) = LS.truncate-view size n.content ready in
      (
        ap (λ r. shrunk S size (r, record n { content = (S.truncate size n.content).1 })) done,
        ready',
        bytes,
      )
