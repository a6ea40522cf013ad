-- ===== src/Node/Remove.antt =====
-- `MarcFileNode::remove` over a lawful client: what is left, and what is not touched.
use marc_fs.Base.{ℕ, ◌≡◌, sym, subst, false, arith, length, ok, Bytes, Text, text_eq, text_eq_iff}
use marc_fs.Storage.{Storage}
use marc_fs.Cloud
use marc_fs.Cloud.{Client, Entry, absent, file}
use marc_fs.Cloud.Entries.{Gives, set_parts-other}
use marc_fs.Parts.{part_name, part_count}
use marc_fs.Node.{Node, remove_all, remove_node}
use marc_fs.Node.Exact.{IsExact, IsClear, cleared, cleared-IsClear}
use marc_fs.Node.Flush.{remove_all-Gives}
use marc_fs.Node.Rename.{AreUnrelated, part_names-ne}

module _ (S : Storage) (C : Client) (L : Cloud.IsLawful C) (limit : ℕ) (path : Text) (body : Bytes)
    (w : C.World) where
  open L use {entry, IsOnline}

  -- Nothing but the file's representation goes.
  pub remove_node-Gives :
      (n : Node S)
      → n.old_size ≡ length body
      → IsOnline w
      → IsExact limit (entry w) path body
      → let r = remove_node S C limit path (n, w) in
        Gives C L (r.0, r.1.1) (cleared limit path (length body) (entry w))
  unfolding remove_node
  remove_node-Gives n size on x =
      subst
        (λ k.
          Gives C L (remove_all S C limit path k w) (cleared limit path (length body) (entry w)))
        (sym size) (remove_all-Gives S C limit L path body w on x)

  -- Over a working connection, removing a stored file succeeds and leaves neither the file nor any
  -- part of it.
  pub remove_node-IsClear :
      (n : Node S)
      → n.old_size ≡ length body
      → IsOnline w
      → IsExact limit (entry w) path body
      → let r = remove_node S C limit path (n, w) in
        (r.0 ≡ ok tt) × IsOnline r.1.1 × IsClear (entry r.1.1) path
  unfolding remove_node
  remove_node-IsClear n size on x =
      subst
        (λ k.
          let r = remove_all S C limit path k w in
          (r.0 ≡ ok tt) × IsOnline r.1 × IsClear (entry r.1) path)
        (sym size)
        (let g = remove_all-Gives S C limit L path body w on x in
          (
            g.0,
            g.1,
            subst (λ f. IsClear f path) (sym g.2) (cleared-IsClear limit path body (entry w) x),
          ))

text_eq_swap : (a b : Text) → text_eq b a ≡ false → text_eq a b ≡ false
text_eq_swap a b h = ground (arith, h, text_eq_iff a b, text_eq_iff b a)

-- A file whose name is unrelated stays as it is.
pub cleared-IsExact :
    (old new : Text) (apart : text_eq old new ≡ false) (C : Client) (L : Cloud.IsLawful C)
    (limit size : ℕ) (body : Bytes) (f : Text → Entry)
    → AreUnrelated old new apart C L
    → IsExact limit f old body
    → IsExact limit (cleared limit new size f) old body
cleared-IsExact old new apart C L limit size body f u x = record {
  whole = ground (
    arith,
    apart,
    x.whole,
    set_parts-other new (λ _. absent) (part_count limit size) 0 f old u.old_part,
  );
  parts = λ i. ground (
    arith,
    u.new_part i,
    x.parts i,
    set_parts-other new (λ _. absent) (part_count limit size) 0 f (part_name old i)
        (λ j. part_names-ne old new apart i j),
    text_eq_swap (part_name old i) new,
  );
}
