-- ===== src/Node/Exchange.antt =====
-- Two files that change places, by three renames in one folder.
use marc_fs.Base.{
  ℕ, ◌≡◌, sym, ap, subst, ◌∙◌, inl, inr, false, arith, if◌then◌else◌, Bool-cases, length, ok, Bytes,
  Text, text_eq, text_eq_iff, Result,
}
use marc_fs.Storage.{Storage}
use marc_fs.Cloud
use marc_fs.Cloud.{Client, Entry, file, absent, set_entry, detour}
use marc_fs.Parts.{part_name, is_compound, part_count, for_parts}
use marc_fs.Parts.Blocks.{block}
use marc_fs.Node.{Node, rename_all, rename_node}
use marc_fs.Node.Exact.{IsExact, IsClear}
use marc_fs.Node.Ways.{HasWays, HasWays-HasWay, HasWays-parts}
use marc_fs.Node.Rename.{
  AreUnrelated, rename_node-IsMoved, part_names-ne, move_parts-other, for_parts-rename,
}

module _ (C : Client) (L : Cloud.IsLawful C) (S : Storage) (limit : ℕ) where
  open L use {entry, IsOnline}

  -- A name that is none of the two paths' and none of their parts'.
  pub record IsBeside (old new q : Text) : Type 0 where
    pub from_old : text_eq q old ≡ false
    pub from_new : text_eq q new ≡ false
    pub from_old_parts : (j : ℕ) → text_eq q (part_name old j) ≡ false
    pub from_new_parts : (j : ℕ) → text_eq q (part_name new j) ≡ false

  module _ (old new : Text) (apart : text_eq old new ≡ false) (body : Bytes) (w : C.World)
      (u : AreUnrelated old new apart C L) (on : IsOnline w) (x : IsExact limit (entry w) old body)
      (free : IsClear (entry w) new) (way : HasWays (entry w) old new) where
    -- A rename leaves every other name as it was.
    rename_node_beside :
        (n : Node S) (q : Text)
        → n.old_size ≡ length body
        → IsBeside old new q
        → entry (rename_node S C limit old new (n, w)).1.1 q ≡ entry w q
    unfolding rename_node rename_all
    rename_node_beside n q size b =
        subst
          (λ k.
            entry
              ((if is_compound limit k
                  then for_parts (λ idx. C.rename (part_name old idx) (part_name new idx))
                      (part_count limit k) 0
                  else C.rename old new)
                w).1
              q
            ≡ entry w q)
          (sym size)
          (elim (Bool-cases (is_compound limit (length body))) [
            | inl big ↦ rw big (
                let count = part_count limit (length body) in
                let moved =
                  for_parts-rename old new apart C L (block limit body) count 0 w on λ j p r. (
                    ground (arith, x.parts j),
                    free.parts j,
                    HasWays-parts (entry w) old new j way,
                  ) in
                ap (λ f. f q) moved.2
                ∙ move_parts-other old new apart (λ j. file (block limit body j)) count 0 (entry w)
                    q b.from_old_parts b.from_new_parts)
            | inr small ↦ rw small (
                ap (λ f. f q)
                  (L.rename-entry old new body w on (x.whole ∙ rw small) free.whole
                    (HasWays-HasWay (entry w) old new way)).2
                ∙ rw (b.from_old, b.from_new))
          ])

  -- A file with another name, that is no part of the two and has none of them as a part.
  IsExact_beside :
      (f g : Text → Entry) (p : Text) (body : Bytes)
      → IsExact limit f p body
      → g p ≡ f p
      → ((i : ℕ) → g (part_name p i) ≡ f (part_name p i))
      → IsExact limit g p body
  IsExact_beside f g p body x whole parts = record {
    whole = whole ∙ x.whole;
    parts = λ i. parts i ∙ x.parts i;
  }

  text_eq_sym : (a b : Text) → text_eq a b ≡ false → text_eq b a ≡ false
  text_eq_sym a b e = ground (arith, text_eq_iff a b, text_eq_iff b a)

  flip :
      {a b : Text} {apart : text_eq a b ≡ false} (u : AreUnrelated a b apart C L)
      → AreUnrelated b a u.apart_sym C L
  flip {apart = apart} u = record {
    old_part = u.new_part;
    new_part = u.old_part;
    apart_sym = apart;
  }

  module _ {old new p : Text} {by_old : text_eq p old ≡ false} {by_new : text_eq p new ≡ false}
      (uo : AreUnrelated p old by_old C L) (un : AreUnrelated p new by_new C L) where
    path-IsBeside : IsBeside old new p
    path-IsBeside = record {
      from_old = by_old;
      from_new = by_new;
      from_old_parts = uo.old_part;
      from_new_parts = un.old_part;
    }

    part_name-IsBeside : (i : ℕ) → IsBeside old new (part_name p i)
    part_name-IsBeside i = record {
      from_old = text_eq_sym old (part_name p i) (uo.new_part i);
      from_new = text_eq_sym new (part_name p i) (un.new_part i);
      from_old_parts = part_names-ne p old by_old i;
      from_new_parts = part_names-ne p new by_new i;
    }

  -- One rename in a folder, with a third file that stays.
  module _ (old new p : Text) {apart : text_eq old new ≡ false} {by_old : text_eq p old ≡ false}
      {by_new : text_eq p new ≡ false} (u : AreUnrelated old new apart C L)
      (uo : AreUnrelated p old by_old C L) (un : AreUnrelated p new by_new C L)
      (folder : detour old new ≡ new) (body other : Bytes) (n : Node S) (w : C.World) where
    record Steps (r : Result (Unit {0}) × (Node S × C.World)) : Type 0 where
      pub done : r.0 ≡ ok tt
      pub online : IsOnline r.1.1
      pub moved : IsExact limit (entry r.1.1) new body
      pub clear : IsClear (entry r.1.1) old
      pub stays : IsExact limit (entry r.1.1) p other

    rename_node-Steps :
        n.old_size ≡ length body
        → IsOnline w
        → IsExact limit (entry w) old body
        → IsClear (entry w) new
        → IsExact limit (entry w) p other
        → Steps (rename_node S C limit old new (n, w))
    rename_node-Steps size on x free y =
        let way : HasWays (entry w) old new = inl (subst (IsClear (entry w)) (sym folder) free) in
        let m = rename_node-IsMoved old new apart C L S limit body w n size u on x free way in
        let beside = λ (q : Text) (b : IsBeside old new q).
          rename_node_beside old new apart body w u on x free way n q size b in
        record {
          done = m.done;
          online = m.online;
          moved = m.exact;
          clear = m.clear;
          stays =
              IsExact_beside (entry w) (entry (rename_node S C limit old new (n, w)).1.1) p other y
                (beside p (path-IsBeside uo un))
                (λ i. beside (part_name p i) (part_name-IsBeside uo un i));
        }

  module _ (old new temp : Text) {old_new : text_eq old new ≡ false}
      {new_temp : text_eq new temp ≡ false} {temp_old : text_eq temp old ≡ false}
      (u : AreUnrelated old new old_new C L) (v : AreUnrelated new temp new_temp C L)
      (t : AreUnrelated temp old temp_old C L) (body gone : Bytes) (n m : Node S)
      (w : C.World) where
    abbrev pub first : Result (Unit {0}) × (Node S × C.World)
    first = rename_node S C limit new temp (m, w)

    abbrev pub second : Result (Unit {0}) × (Node S × C.World)
    second = rename_node S C limit old new (n, first.1.1)

    abbrev pub third : Result (Unit {0}) × (Node S × C.World)
    third = rename_node S C limit temp old (m, second.1.1)

    -- After the three renames each path holds the file of the other, and the temporary name is free.
    pub record AreExchanged : Type 0 where
      pub first_done : first.0 ≡ ok tt
      pub second_done : second.0 ≡ ok tt
      pub third_done : third.0 ≡ ok tt
      pub online : IsOnline third.1.1
      pub at_new : IsExact limit (entry third.1.1) new body
      pub at_old : IsExact limit (entry third.1.1) old gone
      pub at_temp : IsClear (entry third.1.1) temp

    pub rename_node-AreExchanged :
        n.old_size ≡ length body
        → m.old_size ≡ length gone
        → detour new temp ≡ temp
        → detour old new ≡ new
        → detour temp old ≡ old
        → IsOnline w
        → IsExact limit (entry w) old body
        → IsExact limit (entry w) new gone
        → IsClear (entry w) temp
        → AreExchanged
    rename_node-AreExchanged size size' f1 f2 f3 on x y free =
        let s1 = rename_node-Steps new temp old v u (flip t) f1 gone body m w size' on y free x in
        let s2 =
          rename_node-Steps old new temp u t (flip v) f2 body gone n first.1.1 size s1.online
            s1.stays s1.clear s1.moved in
        let s3 =
          rename_node-Steps temp old new t v (flip u) f3 gone body m second.1.1 size' s2.online
            s2.stays s2.clear s2.moved in
        record {
          first_done = s1.done;
          second_done = s2.done;
          third_done = s3.done;
          online = s3.online;
          at_new = s3.stays;
          at_old = s3.moved;
          at_temp = s3.clear;
        }
