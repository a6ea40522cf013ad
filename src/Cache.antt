-- ===== src/Cache.antt =====
-- mru_cache.h and mru_cache.cpp: the cache of stats by path. A method is one step under its lock.
-- Times are those of the steady clock, in nanoseconds. Nothing but `update` changes a node in place,
-- and nothing keeps the pointer that `get` returns, so a node is held by value.
pub mod Laws
pub mod Threads
pub mod Races
pub mod Alone
use marc_fs.Base.{ℕ, ◌+◌, ◌*◌, ◌^◌, Option, none, some, List, ltb, if◌then◌else◌, Text}
use marc_fs.Dict.{lookup, insert, erase}
use marc_fs.Stat.{Stat}

pub record CacheNode : Type 0 where
  pub stbuf : Stat
  pub cached_since : ℕ

abbrev pub Cache : Type 0
Cache = List (Text × CacheNode)

-- 60 seconds.
abbrev pub cache_ttl : ℕ
cache_ttl = 60 * 10 ^ 9

-- `explicit CacheNode(const struct stat &)`
unfoldable pub cache_node : ℕ → Stat → CacheNode
cache_node now st = record { stbuf = st; cached_since = now }

found : ℕ → Text → Cache → Option CacheNode → Option CacheNode × Cache
found now path c none = (none, c)
found now path c (some node) =
    if ltb (node.cached_since + cache_ttl) now then (none, erase path c) else (some node, c)

-- An entry that has expired is erased.
unfoldable pub get : ℕ → Text → Cache → Option CacheNode × Cache
unfolding found
get now path c = found now path c (lookup path c)

unfoldable pub put : Text → CacheNode → Cache → Cache
put path node c = insert path node c

unfoldable pub remove : Text → Cache → Cache
remove path c = erase path c

refreshed : (Stat → Stat) → Text → Cache → Option CacheNode → Cache
refreshed fill path c none = c
refreshed fill path c (some node) = insert path (record node { stbuf = fill node.stbuf }) c

-- `fill` is the `fillStat` of the node that is passed. The entry keeps its age.
pub update : Text → (Stat → Stat) → Cache → Cache
unfolding refreshed
update path fill c = refreshed fill path c (lookup path c)
