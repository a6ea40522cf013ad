-- ===== src/Cache/Alone.antt =====
-- The cache as the only thread at work uses it: then the two halves of `get` are one step.
pub mod Refines
pub mod Ageing
use marc_fs.Base.{
  ℕ, ◌+◌, ◌≡◌, refl, sym, ap, ◌∙◌, inl, inr, Bool, true, false, Option, none, some, List, [], ◌∷◌,
  map, arith, ◌==◌, ltb, if◌then◌else◌, Bool-cases, Option-cases, Text, text_eq, text_eq_iff,
}
use marc_fs.Base.Families.{update}
use marc_fs.Dict.{lookup, insert, erase}
use marc_fs.Stat.{Stat}
use marc_fs.Cache
use marc_fs.Cache.{CacheNode, Cache, cache_ttl, cache_node}
use marc_fs.Cache.Threads.{
  Element, Shared, Phase, outside, between, look, looked, erase_at, assigned, refilled, invalidate,
  put, remove, refresh,
}

-- The entries without their identity.
abbrev pub entry_of : Text × Element → Text × CacheNode
entry_of (k, e) = (k, e.node)

abbrev pub entries : List (Text × Element) → Cache
entries m = map entry_of m

abbrev pub node_of : Option Element → Option CacheNode
node_of none = none
node_of (some e) = some e.node

pub lookup-entries :
    (k : Text) (m : List (Text × Element)) → lookup k (entries m) ≡ node_of (lookup k m)
unfolding lookup
lookup-entries k [] = refl
lookup-entries k ((j, e) ∷ m) = ground (arith, lookup-entries k m)

pub insert-entries :
    (k : Text) (e : Element) (m : List (Text × Element))
    → entries (insert k e m) ≡ insert k e.node (entries m)
unfolding insert
insert-entries k e [] = refl
insert-entries k e ((j, f) ∷ m) = ground (arith, insert-entries k e m)

pub erase-entries :
    (k : Text) (m : List (Text × Element)) → entries (erase k m) ≡ erase k (entries m)
unfolding erase
erase-entries k [] = refl
erase-entries k ((j, f) ∷ m) = ground (arith, erase-entries k m)

-- What `CacheManager` is asked for, or time that passes.
pub data Request : Type 0 where
  gets : Text → Request
  puts : Text → Stat → Request
  removes : Text → Request
  refreshes : Text → (Stat → Stat) → Request
  waits : ℕ → Request

module _ (i : ℕ) where
  pub finished : Shared → Phase → Shared
  finished s outside = s
  finished s (between path id) = invalidate i path id s

  -- The whole of `get`, with no other thread at its locks meanwhile.
  pub get_whole : Text → Shared → Option CacheNode × Shared
  unfolding finished
  get_whole path s = let (r, t) = look i path s in (r, finished t (t.threads i))

  pub serve : Request → Shared → Option CacheNode × Shared
  unfolding get_whole
  serve (gets path) s = get_whole path s
  serve (puts path st) s = (none, put path (cache_node s.now st) s)
  serve (removes path) s = (none, remove path s)
  serve (refreshes path fill) s = (none, refresh path fill s)
  serve (waits n) s = (none, record s { now = s.now + n })

  pub serve_all : List Request → Shared → List (Option CacheNode) × Shared
  unfolding serve
  serve_all [] s = ([], s)
  serve_all (r ∷ rs) s = let (x, t) = serve r s in let (xs, u) = serve_all rs t in (x ∷ xs, u)

-- The same requests to the cache of stats in one piece, with the clock.
pub expected : Request → ℕ × Cache → Option CacheNode × (ℕ × Cache)
expected (gets path) (now, c) = let (r, d) = Cache.get now path c in (r, (now, d))
expected (puts path st) (now, c) = (none, (now, Cache.put path (cache_node now st) c))
expected (removes path) (now, c) = (none, (now, Cache.remove path c))
expected (refreshes path fill) (now, c) = (none, (now, Cache.update path fill c))
expected (waits n) (now, c) = (none, (now + n, c))

pub expect_all : List Request → ℕ × Cache → List (Option CacheNode) × (ℕ × Cache)
unfolding expected
expect_all [] s = ([], s)
expect_all (r ∷ rs) s = let (x, t) = expected r s in let (xs, u) = expect_all rs t in (x ∷ xs, u)

-- What a client of the cache can see of a state.
abbrev pub seen : Shared → ℕ × Cache
seen s = (s.now, entries s.elements)
