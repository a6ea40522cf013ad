-- ===== src/Cache/Threads.antt =====
-- mru_cache.cpp, `CacheManager` as the threads of FUSE share it. What a method does under one lock is
-- one step. Readers change nothing under the shared lock, so they need not be told apart from one
-- another. `get` takes two locks one after the other when it finds an entry that has expired.
use marc_fs.Base.{
  ℕ, suc, ◌+◌, ◌≡◌, Bool, true, Option, none, some, List, ◌==◌, ltb, if◌then◌else◌, Text,
}
use marc_fs.Base.Families.{update}
use marc_fs.Dict.{lookup, insert, erase}
use marc_fs.Stat.{Stat}
use marc_fs.Cache.{CacheNode, cache_ttl, cache_node}

-- An element of the map. Its number tells it from an element that is made later for the same key.
pub record Element : Type 0 where
  pub id : ℕ
  pub node : CacheNode

-- Where a thread stands: outside `get`, or between its two locks, with an iterator to an element.
pub data Phase : Type 0 where
  outside : Phase
  between : Text → ℕ → Phase

-- `broken` is set when an iterator is used whose element is gone, which is undefined behaviour.
pub record Shared : Type 0 where
  pub elements : List (Text × Element)
  pub next_id : ℕ
  pub now : ℕ
  pub threads : ℕ → Phase
  pub broken : Bool

-- `get` up to the end of its shared lock. It answers nothing for an expired entry.
abbrev pub looked : ℕ → Text → Shared → Option Element → Option CacheNode × Shared
looked i path s none = (none, s)
looked i path s (some e) =
    if ltb (e.node.cached_since + cache_ttl) s.now
    then (none, record s { threads = update s.threads i (between path e.id) })
    else (some e.node, s)

unfoldable pub look : ℕ → Text → Shared → Option CacheNode × Shared
look i path s = looked i path s (lookup path s.elements)

-- `statCache.erase(cached)`
abbrev pub erase_at : Text → ℕ → Shared → Option Element → Shared
erase_at path id s none = record s { broken = true }
erase_at path id s (some e) =
    if e.id == id then record s { elements = erase path s.elements } else record s { broken = true }

-- The rest of `get`, under the exclusive lock.
unfoldable pub invalidate : ℕ → Text → ℕ → Shared → Shared
invalidate i path id s =
    let t = erase_at path id s (lookup path s.elements) in
    record t { threads = update s.threads i outside }

-- `statCache[path] = …` makes an element only where there is none.
abbrev pub assigned : Text → CacheNode → Shared → Option Element → Shared
assigned path node s none = record s {
  elements = insert path (record { id = s.next_id; node = node }) s.elements;
  next_id = suc s.next_id;
}
assigned path node s (some e) = record s {
  elements = insert path (record e { node = node }) s.elements;
}

unfoldable pub put : Text → CacheNode → Shared → Shared
put path node s = assigned path node s (lookup path s.elements)

unfoldable pub remove : Text → Shared → Shared
remove path s = record s { elements = erase path s.elements }

abbrev pub refilled : Text → (Stat → Stat) → Shared → Option Element → Shared
refilled path fill s none = s
refilled path fill s (some e) =
    let node : CacheNode = record e.node { stbuf = fill e.node.stbuf } in
    record s { elements = insert path (record e { node = node }) s.elements }

unfoldable pub refresh : Text → (Stat → Stat) → Shared → Shared
refresh path fill s = refilled path fill s (lookup path s.elements)

-- One step of some thread, or of the steady clock.
pub data Step (s : Shared) : Shared → Type 0 where
  looks : (i : ℕ) (path : Text) → s.threads i ≡ outside → Step s (look i path s).1
  invalidates :
      (i : ℕ) (path : Text) (id : ℕ)
      → s.threads i ≡ between path id
      → Step s (invalidate i path id s)
  puts : (path : Text) (st : Stat) → Step s (put path (cache_node s.now st) s)
  removes : (path : Text) → Step s (remove path s)
  refreshes : (path : Text) (fill : Stat → Stat) → Step s (refresh path fill s)
  ticks : (n : ℕ) → Step s (record s { now = s.now + n })

pub data Reach (s : Shared) : Shared → Type 0 where
  here : Reach s s
  then_step : {t u : Shared} → Reach s t → Step t u → Reach s u
