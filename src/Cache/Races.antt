-- ===== src/Cache/Races.antt =====
-- What two threads do to the cache when one of them is between the two locks of `get`.
use marc_fs.Base.{
  ℕ, ◌+◌, ◌≡◌, ◌≢◌, refl, ap, subst, ◌∙◌, true, none, some, List, arith, ◌==◌, ltb, Text,
  text_eq_iff,
}
use marc_fs.Base.Families.{update}
use marc_fs.Dict.{lookup, insert, erase, lookup-insert, lookup-erase}
use marc_fs.Stat.{Stat}
use marc_fs.Cache.{CacheNode, cache_ttl, cache_node}
use marc_fs.Cache.Threads.{
  looked, erase_at, assigned, Element, Shared, outside, between, look, invalidate, put, Step, looks,
  invalidates, puts, Reach, here, then_step,
}

-- The entry of a path has expired.
abbrev pub IsExpired : Text → Element → Shared → Type 0
IsExpired path e s =
    (lookup path s.elements ≡ some e) × (ltb (e.node.cached_since + cache_ttl) s.now ≡ true)

module _ (path : Text) (e : Element) where
  look-expired :
      (i : ℕ) (s : Shared)
      → IsExpired path e s
      → (look i path s).1 ≡ record s { threads = update s.threads i (between path e.id) }
  unfolding look
  look-expired i s (found, old) = ap (λ f. (looked i path s f).1) found ∙ rw old

  invalidate-live :
      (i : ℕ) (s : Shared) (f : Element)
      → lookup path s.elements ≡ some f
      → f.id ≡ e.id
      → invalidate i path e.id s
        ≡ record s { elements = erase path s.elements; threads = update s.threads i outside }
  unfolding invalidate
  invalidate-live i s f found same =
      let hit : f.id == e.id ≡ true = ground arith in
      ap (λ o. let t = erase_at path e.id s o in record t { threads = update s.threads i outside })
        found
      ∙ rw hit

  invalidate-gone :
      (i : ℕ) (s : Shared)
      → lookup path s.elements ≡ none
      → (invalidate i path e.id s).broken ≡ true
  unfolding invalidate
  invalidate-gone i s gone = ap (λ o. (erase_at path e.id s o).broken) gone

  put-found :
      (node : CacheNode) (s : Shared)
      → lookup path s.elements ≡ some e
      → put path node s ≡ record s { elements = insert path (record e { node = node }) s.elements }
  unfolding put
  put-found node s found = ap (assigned path node s) found

  lookup-same : (v : Element) (m : List (Text × Element)) → lookup path (insert path v m) ≡ some v
  lookup-same v m = lookup-insert path path v m ∙ ground (arith, text_eq_iff path path)

  erased : (m : List (Text × Element)) → lookup path (erase path m) ≡ none
  erased m = lookup-erase path path m ∙ ground (arith, text_eq_iff path path)

  module _ (i j : ℕ) (s : Shared) (differ : i ≢ j) (x : IsExpired path e s) where
    once : Shared
    once = (look i path s).1

    once_lem : once ≡ record s { threads = update s.threads i (between path e.id) }
    unfolding once
    once_lem = look-expired i s x

    twice_lem : (look j path once).1 ≡ record s {
      threads = update (update s.threads i (between path e.id)) j (between path e.id);
    }
    twice_lem =
        ap (λ t. (look j path t).1) once_lem
        ∙ look-expired j (record s { threads = update s.threads i (between path e.id) }) x

    thrice_lem : invalidate i path e.id (look j path once).1 ≡ record s {
      elements = erase path s.elements;
      threads =
          update (update (update s.threads i (between path e.id)) j (between path e.id)) i outside;
    }
    thrice_lem = ap (invalidate i path e.id) twice_lem ∙ invalidate-live i _ e x.0 refl

    -- Two threads that are outside ask for a path whose entry has expired. They can take their locks
    -- in such an order that the second erases an element which the first has erased before: undefined
    -- behaviour.
    pub get_races :
        s.threads i ≡ outside → s.threads j ≡ outside → (t : Shared) × Reach s t × (t.broken ≡ true)
    unfolding once
    get_races free_i free_j =
        let s2 = (look j path once).1 in
        let s3 = invalidate i path e.id s2 in
        let free : once.threads j ≡ outside = ap (λ t. t.threads j) once_lem ∙ ground arith in
        let held_i : s2.threads i ≡ between path e.id =
          ap (λ t. t.threads i) twice_lem ∙ ground arith in
        let held_j : s3.threads j ≡ between path e.id =
          ap (λ t. t.threads j) thrice_lem ∙ ground arith in
        (
          invalidate j path e.id s3,
          then_step
              (then_step (then_step (then_step here (looks i path free_i)) (looks j path free))
                (invalidates i path e.id held_i))
              (invalidates j path e.id held_j),
          invalidate-gone j s3 (ap (λ t. lookup path t.elements) thrice_lem ∙ erased s.elements),
        )

  -- A thread that is outside asks for a path whose entry has expired, and another puts a new stat of
  -- this path while the first is between its locks: then the first erases the new stat, and the path
  -- has no entry any more, though nothing undefined is done.
  pub put_lost :
      (i : ℕ) (st : Stat) (s : Shared)
      → s.threads i ≡ outside
      → IsExpired path e s
      → let t = invalidate i path e.id (put path (cache_node s.now st) (look i path s).1) in
        Reach s t × (lookup path t.elements ≡ none) × (t.broken ≡ s.broken)
  put_lost i st s free x =
      let node = cache_node s.now st in
      let s1 : Shared = record s { threads = update s.threads i (between path e.id) } in
      let two : put path node (look i path s).1
          ≡ record s1 { elements = insert path (record e { node = node }) s.elements } =
        ap (put path node) (look-expired i s x) ∙ put-found node s1 x.0 in
      let last =
        ap (invalidate i path e.id) two
        ∙ invalidate-live i _ (record e { node = node }) (lookup-same _ s.elements) refl in
      let here_i : update s.threads i (between path e.id) i ≡ between path e.id = ground arith in
      let same_now : (look i path s).1.now ≡ s.now = ap (λ t. t.now) (look-expired i s x) in
      (
        then_step
            (then_step (then_step here (looks i path free)) (
              subst (λ n. Step (look i path s).1 (put path (cache_node n st) (look i path s).1))
                same_now (puts path st)))
            (invalidates i path e.id (ap (λ t. t.threads i) two ∙ here_i)),
        ap (λ t. lookup path t.elements) last ∙ erased _,
        ap (λ t. t.broken) last,
      )
