-- ===== src/Fuse/Expiry.antt =====
-- The first request that meets the end of a stat's life in the cache.
use marc_fs.Base.{ℕ, ◌+◌, ◌<◌, ◌≡◌, refl, some, none, List, ◌∷◌, arith, ℤ, undefined, fail, Text}
use marc_fs.Dict.{lookup}
use marc_fs.Cache
use marc_fs.Cache.{CacheNode, cache_ttl}
use marc_fs.Cache.Laws.{get-expired}
use marc_fs.Hooks.{Setup, Fs}
use marc_fs.Hooks.Faults.{open_callback_missing}
use marc_fs.Fuse.{Request, elapse, open_file, serve, serve_all}

module _ (U : Setup) where
  -- With an idle client, a path whose stat is in the cache is opened after a pause, when the stat is
  -- older than a minute: the callback follows the null pointer that the cache gives, and whatever
  -- requests were to follow, the program does not answer them.
  pub open_expired :
      (path : Text) (d : ℕ) (now : ℤ) (node : CacheNode) (rs : List Request) (fs : Fs U)
      → 0 < fs.idle
      → lookup path fs.cache ≡ some node
      → node.cached_since + cache_ttl < fs.steady + d
      → (serve_all U (elapse d now ∷ open_file path ∷ rs) fs).0 ≡ fail undefined
  unfolding serve_all serve
  open_expired path d now node rs fs some_idle known old =
      let later : Fs U = record fs { steady = fs.steady + d; time = now } in
      let gone : (Cache.get later.steady path later.cache).0 ≡ none =
        get-expired later.steady path node fs.cache known (ground arith) in
      let failed = open_callback_missing U path later none some_idle gone in rw failed refl
