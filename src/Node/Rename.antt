-- ===== src/Node/Rename.antt =====
-- `MarcFileNode::rename` and `MarcFileNode::remove` over a lawful client.
use marc_fs.Base.{
  ℕ, zero, suc, ◌+◌, ◌≤◌, ◌<◌, ◌≡◌, refl, sym, ap, subst, ◌∙◌, inl, inr, true, false, ◌&&◌, arith,
  ltb, leb, if◌then◌else◌, Bool-cases, length, Result, ok, Bytes, Text, text_eq, text_eq_iff,
  text_eq_refl,
}
use marc_fs.Storage.{Storage}
use marc_fs.Cloud
use marc_fs.Cloud.{HasWay, Client, Entry, absent, file, set_entry}
use marc_fs.Cloud.Entries.{Gives, bind_ok}
use marc_fs.Parts.{part_name, is_compound, part_count, for_parts}
use marc_fs.Parts.Names.{text_eq-part_name, part_name-ne, part_name-ne_sym, part_name-injective}
use marc_fs.Parts.Blocks.{block}
use marc_fs.Node.{Node, rename_all, rename_node}
use marc_fs.Node.Ways.{HasWays, HasWays-HasWay, HasWays-parts, HasWay-set_entry}
use marc_fs.Node.Exact.{IsExact, IsClear}

-- Parts `i` to `i + left - 1`, moved one after the other.
pub move_parts : Text → Text → (ℕ → Entry) → ℕ → ℕ → (Text → Entry) → Text → Entry
move_parts old new e zero i f = f
move_parts old new e (suc left) i f =
    move_parts old new e left (suc i)
      (set_entry (part_name new i) (e i) (set_entry (part_name old i) absent f))

module _ (old new : Text) (apart : text_eq old new ≡ false) where
  pub part_names-ne : (i j : ℕ) → text_eq (part_name old i) (part_name new j) ≡ false
  part_names-ne i j = ground (
    arith,
    apart,
    text_eq_iff old new,
    text_eq_iff (part_name old i) (part_name new j),
    λ (h : part_name old i ≡ part_name new j). (part_name-injective old new i j h).0,
  )

  part_names-ne_sym : (i j : ℕ) → text_eq (part_name new j) (part_name old i) ≡ false
  part_names-ne_sym i j = ground (
    arith,
    part_names-ne i j,
    text_eq_iff (part_name old i) (part_name new j),
    text_eq_iff (part_name new j) (part_name old i),
  )

  move_parts-old :
      (e : ℕ → Entry) (left i j : ℕ) (f : Text → Entry)
      → move_parts old new e left i f (part_name old j)
        ≡ (if leb i j && ltb j (i + left) then absent else f (part_name old j))
  unfolding move_parts
  move_parts-old e zero i j f = ground arith
  move_parts-old e (suc left) i j f =
      move_parts-old e left (suc i) j _
      ∙ ground (arith, text_eq-part_name old j i, part_names-ne j i)

  move_parts-new :
      (e : ℕ → Entry) (left i j : ℕ) (f : Text → Entry)
      → move_parts old new e left i f (part_name new j)
        ≡ (if leb i j && ltb j (i + left) then e j else f (part_name new j))
  unfolding move_parts
  move_parts-new e zero i j f = ground arith
  move_parts-new e (suc left) i j f =
      move_parts-new e left (suc i) j _
      ∙ ground (arith, text_eq-part_name new j i, part_names-ne_sym i j, λ (p : i ≡ j). ap e p)

  pub move_parts-other :
      (e : ℕ → Entry) (left i : ℕ) (f : Text → Entry) (q : Text)
      → ((j : ℕ) → text_eq q (part_name old j) ≡ false)
      → ((j : ℕ) → text_eq q (part_name new j) ≡ false)
      → move_parts old new e left i f q ≡ f q
  unfolding move_parts
  move_parts-other e zero i f q h k = refl
  move_parts-other e (suc left) i f q h k = move_parts-other e left (suc i) _ q h k ∙ rw (k i, h i)

  module _ (C : Client) (L : Cloud.IsLawful C) where
    open L use {entry, IsOnline}

    -- The parts that are left are files, and their new names are free.
    abbrev pub CanMove : (ℕ → Bytes) → ℕ → ℕ → (Text → Entry) → Type 0
    CanMove b left i f =
        (j : ℕ)
        → i ≤ j
        → j < i + left
        → (f (part_name old j) ≡ file (b j))
          × (f (part_name new j) ≡ absent)
          × HasWay f (part_name old j) (part_name new j)

    pub for_parts-rename :
        (b : ℕ → Bytes) (left i : ℕ) (w : C.World)
        → IsOnline w
        → CanMove b left i (entry w)
        → Gives C L
            (for_parts (λ idx. C.rename (part_name old idx) (part_name new idx)) left i w)
            (move_parts old new (λ j. file (b j)) left i (entry w))
    unfolding for_parts move_parts
    for_parts-rename b zero i w on h = (refl, on, refl)
    for_parts-rename b (suc left) i w on h =
        let here = h i (omega arith) (omega arith) in
        let (done, on', e) =
          L.rename-entry (part_name old i) (part_name new i) (b i) w on here.0 here.1 here.2 in
        let w' = (C.rename (part_name old i) (part_name new i) w).1 in
        let h' : CanMove b left (suc i) (entry w') = λ j p q.
          let there = h j (omega arith) (omega arith) in
          rw e (
            ground (arith, there, text_eq-part_name old j i, part_names-ne j i),
            ground (arith, there, text_eq-part_name new j i, part_names-ne_sym i j),
            HasWay-set_entry (entry w) (file (b i)) old new i j (omega arith) there.2,
          ) in
        let rest = for_parts-rename b left (suc i) w' on' h' in
        rw
          (bind_ok (C.rename (part_name old i) (part_name new i))
            (for_parts (λ idx. C.rename (part_name old idx) (part_name new idx)) left (suc i)) w
            done)
          (rest.0, rest.1, rest.2 ∙ ap (move_parts old new (λ j. file (b j)) left (suc i)) e)

    -- Neither path is the name of a part of the other.
    pub record AreUnrelated : Type 0 where
      pub old_part : (j : ℕ) → text_eq old (part_name new j) ≡ false
      pub new_part : (j : ℕ) → text_eq new (part_name old j) ≡ false
      pub apart_sym : text_eq new old ≡ false

    -- After a rename the file is held under the new path and not under the old one.
    pub record IsMoved (limit : ℕ) (body : Bytes) (r : Result (Unit {0}) × C.World) : Type 0 where
      pub done : r.0 ≡ ok tt
      pub online : IsOnline r.1
      pub exact : IsExact limit (entry r.1) new body
      pub clear : IsClear (entry r.1) old

    module _ (S : Storage) (limit : ℕ) (body : Bytes) (w : C.World) where
      rename_whole :
          AreUnrelated
          → is_compound limit (length body) ≡ false
          → IsOnline w
          → IsExact limit (entry w) old body
          → IsClear (entry w) new
          → HasWays (entry w) old new
          → IsMoved limit body (C.rename old new w)
      rename_whole u small on x free way =
          let (done, on', e) =
            L.rename-entry old new body w on (x.whole ∙ rw small) free.whole
              (HasWays-HasWay (entry w) old new way) in
          record {
            done = done;
            online = on';
            exact =
                subst (λ f. IsExact limit f new body) (sym e)
                  (record {
                    whole = ground (arith, small, text_eq_refl new);
                    parts = λ i. ground (
                      arith,
                      small,
                      free.parts i,
                      part_name-ne_sym new i,
                      text_eq_iff (part_name new i) old,
                      text_eq_iff old (part_name new i),
                      u.old_part i,
                    );
                  });
            clear =
                subst (λ f. IsClear f old) (sym e)
                  (record {
                    whole = ground (arith, apart, text_eq_refl old);
                    parts = λ i. ground (
                      arith,
                      small,
                      x.parts i,
                      part_name-ne_sym old i,
                      text_eq_iff (part_name old i) new,
                      text_eq_iff new (part_name old i),
                      u.new_part i,
                    );
                  });
          }

      rename_parts :
          AreUnrelated
          → is_compound limit (length body) ≡ true
          → IsOnline w
          → IsExact limit (entry w) old body
          → IsClear (entry w) new
          → HasWays (entry w) old new
          → IsMoved limit body (
              for_parts
                (λ idx. C.rename (part_name old idx) (part_name new idx))
                (part_count limit (length body))
                0
                w)
      rename_parts u big on x free way =
          let b = block limit body in
          let count = part_count limit (length body) in
          let e : ℕ → Entry = λ j. file (b j) in
          let (done, on', same) = for_parts-rename b count 0 w on λ j p q.
            (ground (arith, x.parts j), free.parts j, HasWays-parts (entry w) old new j way) in
          record {
            done = done;
            online = on';
            exact =
                subst (λ f. IsExact limit f new body) (sym same)
                  (record {
                    whole =
                        move_parts-other e count 0 (entry w) new u.new_part (part_name-ne new)
                        ∙ (free.whole ∙ rw big);
                    parts = λ i.
                        move_parts-new e count 0 i (entry w) ∙ ground (arith, big, free.parts i);
                  });
            clear =
                subst (λ f. IsClear f old) (sym same)
                  (record {
                    whole =
                        move_parts-other e count 0 (entry w) old (part_name-ne old) u.old_part
                        ∙ (x.whole ∙ rw big);
                    parts =
                        λ i. move_parts-old e count 0 i (entry w) ∙ ground (arith, big, x.parts i);
                  });
          }

      -- Over a working connection, a rename of a stored file to an unused path, neither path being
      -- the name of a part of the other, and the new name being unused in the old folder too if it is
      -- another name, succeeds: the file is held under the new path, in one piece or in parts, and
      -- neither it nor a part is left under the old one.
      pub rename_node-IsMoved :
          (n : Node S)
          → n.old_size ≡ length body
          → AreUnrelated
          → IsOnline w
          → IsExact limit (entry w) old body
          → IsClear (entry w) new
          → HasWays (entry w) old new
          → let r = rename_node S C limit old new (n, w) in IsMoved limit body (r.0, r.1.1)
      unfolding rename_node rename_all
      rename_node-IsMoved n size u on x free way =
          subst
            (λ k. IsMoved limit body (
              (if is_compound limit k
                  then for_parts (λ idx. C.rename (part_name old idx) (part_name new idx))
                      (part_count limit k) 0
                  else C.rename old new)
                w))
            (sym size)
            (elim (Bool-cases (is_compound limit (length body))) [
              | inl big ↦ rw big (rename_parts u big on x free way)
              | inr small ↦ rw small (rename_whole u small on x free way)
            ])
