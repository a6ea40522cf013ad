-- ===== src/Cache/Alone/Refines.antt =====
-- Each request of a thread alone does to the shared map what it does to the cache in one piece.
use marc_fs.Base.{
  ℕ, ◌+◌, ◌≡◌, refl, sym, ap, ◌∙◌, inl, inr, true, false, Option, none, some, List, [], ◌∷◌, arith,
  ◌==◌, ltb, Bool-cases, Option-cases, Text,
}
use marc_fs.Base.Families.{update}
use marc_fs.Dict.{lookup, erase}
use marc_fs.Stat.{Stat}
use marc_fs.Cache
use marc_fs.Cache.{CacheNode, Cache, cache_ttl, cache_node}
use marc_fs.Cache.Threads.{
  Element, Shared, outside, between, look, looked, erase_at, assigned, refilled, invalidate, put,
  remove, refresh,
}
use marc_fs.Cache.Alone.{
  entries, node_of, lookup-entries, insert-entries, erase-entries, Request, gets, puts, removes,
  refreshes, waits, finished, get_whole, serve, serve_all, expected, expect_all, seen,
}

module _ (i : ℕ) where
  record Refines (s : Shared) (r : Option CacheNode × Shared) (x : Option CacheNode × (ℕ × Cache))
      : Type 0 where
    pub answers : r.0 ≡ x.0
    pub sees : seen r.1 ≡ x.1
    pub free : r.1.threads i ≡ outside
    pub sound : r.1.broken ≡ s.broken

  cached :
      (now : ℕ) (path : Text) (m : List (Text × Element)) (o : Option Element)
      → lookup path m ≡ o
      → Cache.get now path (entries m) ≡ Cache.found now path (entries m) (node_of o)
  unfolding Cache.get
  cached now path m o e =
      ap (Cache.found now path (entries m)) (lookup-entries path m ∙ ap node_of e)

  looked_up :
      (path : Text) (s : Shared) (o : Option Element)
      → lookup path s.elements ≡ o
      → get_whole i path s ≡ (let (r, t) = looked i path s o in (r, finished i t (t.threads i)))
  unfolding get_whole look
  looked_up path s o e =
      ap (λ p. let (r, t) = looked i path s p in (r, finished i t (t.threads i))) e

  -- An expired entry is found, and erased at once.
  expired_lem :
      (path : Text) (s : Shared) (f : Element)
      → lookup path s.elements ≡ some f
      → ltb (f.node.cached_since + cache_ttl) s.now ≡ true
      → get_whole i path s ≡ (
        none,
        record s {
          elements = erase path s.elements;
          threads = update (update s.threads i (between path f.id)) i outside;
        },
      )
  unfolding finished invalidate
  expired_lem path s f e old =
      let t : Shared = record s { threads = update s.threads i (between path f.id) } in
      let at_i : t.threads i ≡ between path f.id = ground arith in
      let hit : f.id == f.id ≡ true = ground arith in
      looked_up path s (some f) e
      ∙ rw old (
          ap (λ p. (none, finished i t p)) at_i
          ∙ (ap
                (λ o.
                  (none, record (erase_at path f.id t o) { threads = update t.threads i outside }))
                e
              ∙ rw hit))

  fresh_lem :
      (path : Text) (s : Shared) (f : Element)
      → s.threads i ≡ outside
      → lookup path s.elements ≡ some f
      → ltb (f.node.cached_since + cache_ttl) s.now ≡ false
      → get_whole i path s ≡ (some f.node, s)
  unfolding finished
  fresh_lem path s f free e young =
      looked_up path s (some f) e ∙ rw young (ap (λ p. (some f.node, finished i s p)) free)

  result-Refines :
      {s t : Shared} {run : Option CacheNode × Shared} {x : Option CacheNode × Cache} {d : Cache}
      (r : Option CacheNode)
      → run ≡ (r, t)
      → x ≡ (r, d)
      → entries t.elements ≡ d
      → t.now ≡ s.now
      → t.threads i ≡ outside
      → t.broken ≡ s.broken
      → Refines s run (x.0, (s.now, x.1))
  result-Refines {s} {t} r a b same time free sound = record {
    answers = ap (λ r. r.0) a ∙ sym (ap (λ r. r.0) b);
    sees =
        ap (λ r. seen r.1) a
        ∙ (ap (λ n. (n, entries t.elements)) time
            ∙ (ap (λ m. (s.now, m)) same ∙ sym (ap (λ r. (s.now, r.1)) b)));
    free = ap (λ r. r.1.threads i) a ∙ free;
    sound = ap (λ r. r.1.broken) a ∙ sound;
  }

  get_whole-Refines :
      (path : Text) (s : Shared)
      → s.threads i ≡ outside
      → Refines s (get_whole i path s) (expected (gets path) (seen s))
  unfolding finished expected Cache.found
  get_whole-Refines path s free = elim (Option-cases (lookup path s.elements)) [
    | inl e ↦
        let a = looked_up path s none e ∙ ap (λ p. (none, finished i s p)) free in
        result-Refines none a (cached s.now path s.elements none e) refl refl free refl
    | inr (f, e) ↦ elim (Bool-cases (ltb (f.node.cached_since + cache_ttl) s.now)) [
      | inl old ↦
          let out : update (update s.threads i (between path f.id)) i outside i ≡ outside =
            ground arith in
          result-Refines none (expired_lem path s f e old)
            (cached s.now path s.elements (some f) e ∙ rw old) (erase-entries path s.elements) refl
            out refl
      | inr young ↦
          result-Refines (some f.node) (fresh_lem path s f free e young)
            (cached s.now path s.elements (some f) e ∙ rw young) refl refl free refl
    ]
  ]

  put-Refines :
      (path : Text) (st : Stat) (s : Shared)
      → s.threads i ≡ outside
      → Refines s (serve i (puts path st) s) (expected (puts path st) (seen s))
  unfolding serve expected put Cache.put
  put-Refines path st s free =
      let node = cache_node s.now st in
      elim (Option-cases (lookup path s.elements)) [
        | inl e ↦
            let a = ap (assigned path node s) e in
            record {
              answers = refl;
              sees = ap seen a ∙ ap (λ m. (s.now, m)) (insert-entries path _ s.elements);
              free = ap (λ t. t.threads i) a ∙ free;
              sound = ap (λ t. t.broken) a;
            }
        | inr (f, e) ↦
            let a = ap (assigned path node s) e in
            record {
              answers = refl;
              sees = ap seen a ∙ ap (λ m. (s.now, m)) (insert-entries path _ s.elements);
              free = ap (λ t. t.threads i) a ∙ free;
              sound = ap (λ t. t.broken) a;
            }
      ]

  refresh-Refines :
      (path : Text) (fill : Stat → Stat) (s : Shared)
      → s.threads i ≡ outside
      → Refines s (serve i (refreshes path fill) s) (expected (refreshes path fill) (seen s))
  unfolding serve expected refresh Cache.update Cache.refreshed
  refresh-Refines path fill s free = elim (Option-cases (lookup path s.elements)) [
    | inl e ↦
        let a = ap (refilled path fill s) e in
        let b =
          ap (Cache.refreshed fill path (entries s.elements))
            (lookup-entries path s.elements ∙ ap node_of e) in
        record {
          answers = refl;
          sees = ap seen a ∙ sym (ap (λ m. (s.now, m)) b);
          free = ap (λ t. t.threads i) a ∙ free;
          sound = ap (λ t. t.broken) a;
        }
    | inr (f, e) ↦
        let a = ap (refilled path fill s) e in
        let b =
          ap (Cache.refreshed fill path (entries s.elements))
            (lookup-entries path s.elements ∙ ap node_of e) in
        record {
          answers = refl;
          sees =
              ap seen a
              ∙ (ap (λ m. (s.now, m)) (insert-entries path _ s.elements)
                  ∙ sym (ap (λ m. (s.now, m)) b));
          free = ap (λ t. t.threads i) a ∙ free;
          sound = ap (λ t. t.broken) a;
        }
  ]

  serve-Refines :
      (r : Request) (s : Shared)
      → s.threads i ≡ outside
      → Refines s (serve i r s) (expected r (seen s))
  unfolding serve expected remove Cache.remove
  serve-Refines (gets path) s free = get_whole-Refines path s free
  serve-Refines (puts path st) s free = put-Refines path st s free
  serve-Refines (removes path) s free = record {
    answers = refl;
    sees = ap (λ m. (s.now, m)) (erase-entries path s.elements);
    free = free;
    sound = refl;
  }
  serve-Refines (refreshes path fill) s free = refresh-Refines path fill s free
  serve-Refines (waits n) s free = record { answers = refl; sees = refl; free = free; sound = refl }

  -- A thread that is outside, with no other thread at work, is answered request by request what the
  -- cache in one piece answers, and leaves what that leaves; it is outside again, and does nothing
  -- undefined that had not been done before.
  pub serve_all-expected :
      (rs : List Request) (s : Shared)
      → s.threads i ≡ outside
      → ((serve_all i rs s).0 ≡ (expect_all rs (seen s)).0)
        × (seen (serve_all i rs s).1 ≡ (expect_all rs (seen s)).1)
        × ((serve_all i rs s).1.threads i ≡ outside)
        × ((serve_all i rs s).1.broken ≡ s.broken)
  unfolding serve_all expect_all
  serve_all-expected [] s free = (refl, refl, free, refl)
  serve_all-expected (r ∷ rs) s free =
      let x = serve-Refines r s free in
      let t = (serve i r s).1 in
      let (answers, sees, out, sound) = serve_all-expected rs t x.free in
      (
        ap (λ a. a ∷ (serve_all i rs t).0) x.answers
            ∙ ap (λ a. (expected r (seen s)).0 ∷ a)
                (answers ∙ ap (λ v. (expect_all rs v).0) x.sees),
        sees ∙ ap (λ v. (expect_all rs v).1) x.sees,
        out,
        sound ∙ x.sound,
      )
