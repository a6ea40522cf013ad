-- ===== src/Hooks/Names/Exchanging.antt =====
-- `renameCallback` with `RENAME_EXCHANGE`, over a lawful client.
use marc_fs.Base.{
  ℕ, suc, ◌-◌, ◌<◌, ◌≡◌, refl, sym, ap, subst, ◌∙◌, false, true, none, arith, length, pos, ok,
  bind_result, ◌>>◌, text_eq, text_eq_refl, Bytes, Text,
}
use marc_fs.Cloud
use marc_fs.Cloud.{detour}
use marc_fs.Dict.{lookup, lookup-erase}
use marc_fs.Cache
use marc_fs.Node
use marc_fs.Node.Exact.{IsExact, IsClear}
use marc_fs.Node.Rename.{AreUnrelated}
use marc_fs.Node.Exchange.{rename_node-AreExchanged, first, second, third}
use marc_fs.Stat.{Stat}
use marc_fs.Retry.{do_with_retry}
use marc_fs.Retry.Once.{do_with_retry-first}
use marc_fs.Hooks.{Setup, Fs, pool, on_cache}
use marc_fs.Hooks.Links.{stat_of}
use marc_fs.Hooks.Names.{
  node_at, done, when_found, no_replace, exchange, move, temp_name, with_target, replace_target,
  rename_job, rename_callback,
}

module _ (U : Setup) (L : Cloud.IsLawful U.C) (old new : Text) (fs found looked : Fs U)
    (st target : Stat) where
  open L use {entry, IsOnline}

  abbrev temp : Text
  temp = temp_name U new

  abbrev forgotten : Fs U
  forgotten = record looked { cache = Cache.remove new (Cache.remove old looked.cache) }

  -- The job, where the target exists and the three renames end well.
  rename_job_exchanges :
      (flags : ℕ) (fs' : Fs U) (w1 w2 w3 : U.C.World)
      → no_replace U flags ≡ false
      → exchange U flags ≡ true
      → stat_of U new (fs', tt) ≡ (ok (pos 0, target), (looked, tt))
      → (Node.rename_node U.S U.C U.limit new temp (node_at U target, looked.world)).0 ≡ ok tt
      → (Node.rename_node U.S U.C U.limit new temp (node_at U target, looked.world)).1.1 ≡ w1
      → (Node.rename_node U.S U.C U.limit old new (node_at U st, w1)).0 ≡ ok tt
      → (Node.rename_node U.S U.C U.limit old new (node_at U st, w1)).1.1 ≡ w2
      → (Node.rename_node U.S U.C U.limit temp old (node_at U target, w2)).0 ≡ ok tt
      → (Node.rename_node U.S U.C U.limit temp old (node_at U target, w2)).1.1 ≡ w3
      → rename_job U old new flags st (fs', tt)
        ≡ (ok (pos 0), (record forgotten { world = w3 }, tt))
  unfolding rename_job replace_target
  rename_job_exchanges flags fs' w1 w2 w3 may swap there d1 e1 d2 e2 d3 e3 =
      ap
        (bind_result (λ found'.
          on_cache U (Cache.remove old)
          >> (on_cache U (Cache.remove new)
              >> with_target U (replace_target U old new flags st) (move U st old new >> done U)
                  found')))
        there
      ∙ (rw (may, swap)
          ((λ i.
              bind_result (λ _. move U st old new >> (move U target temp old >> done U))
                (d1 i, (record forgotten { world = e1 i }, tt)))
            ∙ ((λ i.
                  bind_result (λ _. move U target temp old >> done U)
                    (d2 i, (record forgotten { world = e2 i }, tt)))
                ∙ λ i. bind_result (λ _. done U) (d3 i, (record forgotten { world = e3 i }, tt)))))

  -- Where both paths are found, the cloud holding a file exactly under each, with the sizes of the two
  -- stats, and the flags ask for an exchange: over a working connection, the paths and the temporary
  -- name being in one folder, the latter unused and none the name of a part of another, a rename
  -- answers 0. Each path then holds the file of the other, in one piece or in parts, the temporary name
  -- is free, the cache holds no stat of either path, and the client is given back.
  pub rename_callback-exchanges :
      {old_new : text_eq old new ≡ false} {new_temp : text_eq new temp ≡ false}
      {temp_old : text_eq temp old ≡ false} (body other : Bytes) (flags : ℕ)
      → no_replace U flags ≡ false
      → exchange U flags ≡ true
      → stat_of U old (fs, tt) ≡ (ok (pos 0, st), (found, tt))
      → 0 < found.idle
      → stat_of U new (record found { idle = found.idle - 1 }, tt)
        ≡ (ok (pos 0, target), (looked, tt))
      → st.size ≡ length body
      → target.size ≡ length other
      → AreUnrelated old new old_new U.C L
      → AreUnrelated new temp new_temp U.C L
      → AreUnrelated temp old temp_old U.C L
      → detour new temp ≡ temp
      → detour old new ≡ new
      → detour temp old ≡ old
      → IsOnline looked.world
      → IsExact U.limit (entry looked.world) old body
      → IsExact U.limit (entry looked.world) new other
      → IsClear (entry looked.world) temp
      → let r = rename_callback U old new flags (fs, tt) in
        (r.0 ≡ ok (pos 0))
        × IsExact U.limit (entry r.1.0.world) new body
        × IsExact U.limit (entry r.1.0.world) old other
        × IsClear (entry r.1.0.world) temp
        × IsOnline r.1.0.world
        × (lookup old r.1.0.cache ≡ none)
        × (lookup new r.1.0.cache ≡ none)
        × (r.1.0.idle ≡ suc looked.idle)
  unfolding rename_callback Cache.remove Node.node_of_stat
  rename_callback-exchanges body other flags may swap there some_idle taken size size' u v t f1 f2
        f3 on x y free =
      let n = node_at U st in
      let m = node_at U target in
      let w = looked.world in
      let e =
        rename_node-AreExchanged U.C L U.S U.limit old new temp u v t body other n m w size size' f1
          f2 f3 on x y free in
      let w1 = (first U.C L U.S U.limit old new temp u v t body other n m w).1.1 in
      let w2 = (second U.C L U.S U.limit old new temp u v t body other n m w).1.1 in
      let w3 = (third U.C L U.S U.limit old new temp u v t body other n m w).1.1 in
      let lent : Fs U = record found { idle = found.idle - 1 } in
      let loop =
        do_with_retry-first (pool U) (rename_job U old new flags st) (found, tt)
          (record forgotten { world = w3 }, tt) (pos 0) some_idle
          (rename_job_exchanges flags lent w1 w2 w3 may swap taken e.first_done refl e.second_done
            refl e.third_done refl) in
      subst
        (λ r.
          (r.0 ≡ ok (pos 0))
          × IsExact U.limit (entry r.1.0.world) new body
          × IsExact U.limit (entry r.1.0.world) old other
          × IsClear (entry r.1.0.world) temp
          × IsOnline r.1.0.world
          × (lookup old r.1.0.cache ≡ none)
          × (lookup new r.1.0.cache ≡ none)
          × (r.1.0.idle ≡ suc looked.idle))
        (sym (
          ap
            (bind_result
              (when_found U (λ st'. do_with_retry (pool U) (rename_job U old new flags st'))))
            there
          ∙ loop))
        (
          refl,
          e.at_new,
          e.at_old,
          e.at_temp,
          e.online,
          ground (
            arith,
            lookup-erase new old (Cache.remove old looked.cache),
            lookup-erase old old looked.cache,
            text_eq_refl old,
          ),
          ground (arith, lookup-erase new new (Cache.remove old looked.cache), text_eq_refl new),
          refl,
        )
