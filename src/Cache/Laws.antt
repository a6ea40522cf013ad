-- ===== src/Cache/Laws.antt =====
-- The cache as a map of stats that age.
use marc_fs.Base.{
  ℕ, ◌+◌, ◌≤◌, ◌≡◌, ap, ◌∙◌, inl, inr, true, refl, false, Option, none, some, arith, ltb,
  if◌then◌else◌, Option-cases, Text, text_eq, text_eq_iff,
}
use marc_fs.Dict.{lookup, lookup-insert, lookup-erase}
use marc_fs.Stat.{Stat}
use marc_fs.Cache.{
  CacheNode, Cache, cache_ttl, cache_node, get, put, remove, update, refreshed, found,
}

-- What a read of `path` at time `now` answers.
abbrev pub fresh_at : ℕ → Option CacheNode → Option CacheNode
fresh_at now none = none
fresh_at now (some node) = if ltb (node.cached_since + cache_ttl) now then none else some node

-- A read answers the stored node if it is at most as old as the limit and nothing otherwise, and
-- what it does to the cache is seen by no read at the same time or later.
pub get-get :
    (now later : ℕ) (path other : Text) (c : Cache)
    → now ≤ later
    → ((get now path c).0 ≡ fresh_at now (lookup path c))
      × ((get later other (get now path c).1).0 ≡ (get later other c).0)
unfolding get
get-get now later path other c h = ground (arith, lookup-erase path other c, text_eq_iff path other)

-- A stat that was put is served to its path until it is older than the limit, and other paths are
-- served as before.
pub get-put :
    (now since : ℕ) (path other : Text) (st : Stat) (c : Cache)
    → (get now other (put path (cache_node since st) c)).0 ≡ (
        if text_eq path other
        then fresh_at now (some (cache_node since st))
        else (get now other c).0)
unfolding get put
get-put now since path other st c = ground (arith, lookup-insert path other (cache_node since st) c)

-- A removed path is served no more, and other paths are served as before.
pub get-remove :
    (now : ℕ) (path other : Text) (c : Cache)
    → (get now other (remove path c)).0 ≡ (if text_eq path other then none else (get now other c).0)
unfolding get remove
get-remove now path other c = ground (arith, lookup-erase path other c)

abbrev pub restat : (Stat → Stat) → Option CacheNode → Option CacheNode
restat fill none = none
restat fill (some node) = some (record node { stbuf = fill node.stbuf })

-- An update changes the stat that a path is served, as long as it is served one, and neither the time
-- until which it is served nor any other path.
pub get-update :
    (now : ℕ) (path other : Text) (fill : Stat → Stat) (c : Cache)
    → (get now other (update path fill c)).0
      ≡ (if text_eq path other then restat fill (get now other c).0 else (get now other c).0)
unfolding get update
get-update now path other fill c = elim (Option-cases (lookup path c)) [
  | inl e ↦ ground (arith, text_eq_iff path other)
  | inr (node, e) ↦ ground (
    arith,
    text_eq_iff path other,
    lookup-insert path other (record node { stbuf = fill node.stbuf }) c,
  )
]

-- The entry of an updated path keeps its age.
pub lookup-update :
    (path : Text) (fill : Stat → Stat) (node : CacheNode) (c : Cache)
    → lookup path c ≡ some node
    → lookup path (update path fill c) ≡ some (record node { stbuf = fill node.stbuf })
unfolding update refreshed
lookup-update path fill node c e =
    ap (λ o. lookup path (refreshed fill path c o)) e
    ∙ (lookup-insert path path _ c ∙ ground (arith, text_eq_iff path path))

-- An entry that has not expired is found, and stays.
pub get-young :
    (now : ℕ) (path : Text) (node : CacheNode) (c : Cache)
    → lookup path c ≡ some node
    → ltb (node.cached_since + cache_ttl) now ≡ false
    → get now path c ≡ (some node, c)
unfolding get found
get-young now path node c e young = ap (found now path c) e ∙ rw young

-- One that has expired is not.
pub get-expired :
    (now : ℕ) (path : Text) (node : CacheNode) (c : Cache)
    → lookup path c ≡ some node
    → ltb (node.cached_since + cache_ttl) now ≡ true
    → (get now path c).0 ≡ none
unfolding get found
get-expired now path node c e old = ap (λ o. (found now path c o).0) e ∙ rw old refl
