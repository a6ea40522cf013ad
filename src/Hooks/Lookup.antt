-- ===== src/Hooks/Lookup.antt =====
-- `getattrCallback` finds a file in the listing of its folder, and serves it from the cache from then
-- on.
use marc_fs.Base.{
  ℕ, ◌+◌, ◌≤◌, ◌≡◌, refl, sym, ap, subst, ◌∙◌, false, Option, none, some, [], ◌∷◌, ◌++◌, arith, ltb,
  if◌then◌else◌, le→ltb, pos, ok, Text, codes, text_eq,
}
use marc_fs.Dict.{lookup}
use marc_fs.Cache
use marc_fs.Cache.{Cache, CacheNode, cache_node, cache_ttl}
use marc_fs.Stat.{Stat}
use marc_fs.Hooks.{Setup, Fs, With, pool}
use marc_fs.Hooks.Attributes.{look_up, from_cache, from_path, with_handle, getattr_callback}
use marc_fs.Retry.{do_with_retry}
use marc_fs.Paths.{split_last, split_last-some, is_slash, ends_with_slash}
use mathlib.Core.List.{append_assoc}
use marc_fs.Hooks.Listed.{retried-Served}

module _ (U : Setup) where
  -- What a look-up without a handle answers from a cache that holds the path's stat as of now.
  abbrev Repeats : Text → With U Stat → Type 0
  Repeats path t =
      (st : Stat)
      → ((getattr_callback U path none (t.0, st)).0 ≡ ok (pos 0))
        × ((getattr_callback U path none (t.0, st)).1.1 ≡ t.1)
        × ((getattr_callback U path none (t.0, st)).1.0.world ≡ t.0.world)

  from_cache-hit :
      (path dir name : Text) (fs : Fs U) (st : Stat) (node : CacheNode)
      → lookup path fs.cache ≡ some node
      → fs.steady ≤ node.cached_since + cache_ttl
      → from_cache U path dir name fs st (Cache.get fs.steady path fs.cache)
        ≡ (ok (pos 0), (fs, node.stbuf))
  unfolding from_cache Cache.get
  from_cache-hit path dir name fs st node e young =
      let test : ltb (node.cached_since + cache_ttl) fs.steady ≡ false = le→ltb _ _ young in
      rw e (rw test)

  getattr_hit :
      (path dir name : Text) (fs : Fs U) (st : Stat) (node : CacheNode)
      → text_eq path (codes "/") ≡ false
      → split_last is_slash path ≡ some (dir, name)
      → lookup path fs.cache ≡ some node
      → fs.steady ≤ node.cached_since + cache_ttl
      → getattr_callback U path none (fs, st) ≡ (ok (pos 0), (fs, node.stbuf))
  unfolding getattr_callback with_handle from_path
  getattr_hit path dir name fs st node not_root split e young =
      rw (not_root, getattr_callback)
        ((λ i. from_path U path fs st (split i)) ∙ from_cache-hit path dir name fs st node e young)

  -- A node of the path that is not too old, with the stat that the caller was given.
  abbrev IsCached : Text → With U Stat → Type 0
  IsCached path t =
      (node : CacheNode) × (lookup path t.0.cache ≡ some node)
      × (t.0.steady ≤ node.cached_since + cache_ttl)
      × (node.stbuf ≡ t.1)

  get-hit :
      (now : ℕ) (path : Text) (c c' : Cache) (node : CacheNode)
      → Cache.get now path c ≡ (some node, c')
      → (lookup path c' ≡ some node) × (now ≤ node.cached_since + cache_ttl)
  unfolding Cache.get
  get-hit now path c c' node e = ground arith

  from_cache-IsCached :
      (path dir name : Text) (fs : Fs U) (st : Stat) (r : Option CacheNode × Cache)
      → Cache.get fs.steady path fs.cache ≡ r
      → path ≡ (dir ++ (if ends_with_slash path then [] else 47 ∷ [])) ++ name
      → (from_cache U path dir name fs st r).0 ≡ ok (pos 0)
      → IsCached path (from_cache U path dir name fs st r).1
  unfolding from_cache cache_node
  from_cache-IsCached path dir name fs st (some node, c) g whole e =
      let (found, young) = get-hit fs.steady path fs.cache c node g in (node, found, young, refl)
  from_cache-IsCached path dir name fs st (none, c) g whole e =
      let dir_path = dir ++ (if ends_with_slash path then [] else 47 ∷ []) in
      let t : With U Stat = (record fs { cache = c }, st) in
      let served = retried-Served U dir_path name t e in
      let u = (do_with_retry (pool U) (look_up U dir_path name) t).1 in
      (cache_node u.0.steady u.1, ap (λ p. lookup p u.0.cache) whole ∙ served, omega arith, refl)

  getattr_steps :
      (path dir name : Text) (fs : Fs U) (st : Stat)
      → text_eq path (codes "/") ≡ false
      → split_last is_slash path ≡ some (dir, name)
      → getattr_callback U path none (fs, st)
        ≡ from_cache U path dir name fs st (Cache.get fs.steady path fs.cache)
  unfolding getattr_callback with_handle from_path
  getattr_steps path dir name fs st not_root split =
      rw (not_root, getattr_callback) (λ i. from_path U path fs st (split i))

  joined :
      (path dir name : Text)
      → ends_with_slash path ≡ false
      → split_last is_slash path ≡ some (dir, name)
      → path ≡ (dir ++ (if ends_with_slash path then [] else 47 ∷ [])) ++ name
  joined path dir name no_slash split =
      let (c, is_sep, whole, _) = split_last-some is_slash path dir name split in
      let slash : c ≡ 47 = ground arith in
      rw no_slash
        (whole ∙ (ap (λ d. dir ++ (d ∷ name)) slash ∙ sym (append_assoc dir (47 ∷ []) name)))

  -- A look-up of a path other than the root and without a slash at its end that was answered 0,
  -- from the cache or from the cloud, is answered 0 again at this time, with the same stat and
  -- without a call to the cloud.
  pub getattr_callback_again :
      (path dir name : Text) (t : With U Stat)
      → text_eq path (codes "/") ≡ false
      → ends_with_slash path ≡ false
      → split_last is_slash path ≡ some (dir, name)
      → (getattr_callback U path none t).0 ≡ ok (pos 0)
      → Repeats path (getattr_callback U path none t).1
  getattr_callback_again path dir name (fs, st) not_root no_slash split e =
      let steps = getattr_steps path dir name fs st not_root split in
      let r = from_cache U path dir name fs st (Cache.get fs.steady path fs.cache) in
      let (node, found, young, same) =
        from_cache-IsCached path dir name fs st (Cache.get fs.steady path fs.cache) refl
          (joined path dir name no_slash split) (sym (ap (λ x. x.0) steps) ∙ e) in
      subst (λ x. Repeats path x.1) (sym steps)
        λ st'.
          let hit = getattr_hit path dir name r.1.0 st' node not_root split found young in
          (ap (λ x. x.0) hit, ap (λ x. x.1.1) hit ∙ same, ap (λ x. x.1.0.world) hit)
