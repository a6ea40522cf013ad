-- ===== src/Hooks/Names/Renaming.antt =====
-- `renameCallback` over a lawful client.
use marc_fs.Base.{
  Result, ℕ, suc, ◌-◌, ◌<◌, ◌≡◌, refl, sym, ap, subst, ◌∙◌, false, none, arith, length, pos, negsuc,
  ok, bind_result, ◌>>◌, text_eq, text_eq_refl, Bytes, Text,
}
use marc_fs.Cloud
use marc_fs.Dict.{lookup, lookup-erase}
use marc_fs.Cache
use marc_fs.Node
use marc_fs.Node.{Node}
use marc_fs.Node.Exact.{IsExact, IsClear, cleared, cleared-IsClear}
use marc_fs.Node.Ways.{HasWays}
use marc_fs.Node.Remove.{remove_node-Gives, cleared-IsExact}
use marc_fs.Node.Rename.{AreUnrelated, IsMoved, rename_node-IsMoved}
use marc_fs.Stat.{Stat}
use marc_fs.Retry.{do_with_retry}
use marc_fs.Retry.Laws.{start, leased_steps, do_with_retry_answer}
use marc_fs.Hooks.{Setup, Fs, pool, on_cache}
use marc_fs.Hooks.Links.{stat_of}
use marc_fs.Hooks.Names.{
  node_at, done, when_found, no_replace, exchange, move, with_target, replace_target, rename_job,
  rename_callback,
}

module _ (U : Setup) (old new : Text) where
  -- The state after the file was moved.
  after_rename : Fs U → U.C.World → Fs U
  after_rename fs w = record fs { world = w; cache = Cache.remove new (Cache.remove old fs.cache) }

  -- The job, where the look-up of the target fails.
  rename_job_steps :
      (flags k : ℕ) (fs looked : Fs U) (st nothing : Stat)
      → stat_of U new (fs, tt) ≡ (ok (negsuc k, nothing), (looked, tt))
      → (Node.rename_node U.S U.C U.limit old new (node_at U st, looked.world)).0 ≡ ok tt
      → rename_job U old new flags st (fs, tt) ≡ (
        ok (pos 0),
        (
          after_rename looked
              (Node.rename_node U.S U.C U.limit old new (node_at U st, looked.world)).1.1,
          tt,
        ),
      )
  unfolding rename_job after_rename
  rename_job_steps flags k fs looked st nothing missing e =
      let r = Node.rename_node U.S U.C U.limit old new (node_at U st, looked.world) in
      ap
        (bind_result (λ target.
          on_cache U (Cache.remove old)
          >> (on_cache U (Cache.remove new)
              >> with_target U (replace_target U old new flags st) (move U st old new >> done U)
                  target)))
        missing
      ∙ λ i. bind_result (λ _. done U) (e i, (after_rename looked r.1.1, tt))

-- What both cases come to: after a job that moved the file and forgot both stats.
module _ (U : Setup) (L : Cloud.IsLawful U.C) (old new : Text) (apart : text_eq old new ≡ false)
    (body : Bytes) (fs found looked : Fs U) (st : Stat) where
  open L use {entry, IsOnline}

  renamed :
      (flags : ℕ) (w : U.C.World) {first : Result (Unit {0})}
      → stat_of U old (fs, tt) ≡ (ok (pos 0, st), (found, tt))
      → do_with_retry (pool U) (rename_job U old new flags st) (found, tt)
        ≡ (ok (pos 0), (record (after_rename U old new looked w) { idle = suc looked.idle }, tt))
      → IsMoved old new apart U.C L U.limit body (first, w)
      → let r = rename_callback U old new flags (fs, tt) in
        (r.0 ≡ ok (pos 0))
        × IsMoved old new apart U.C L U.limit body (ok tt, r.1.0.world)
        × (lookup old r.1.0.cache ≡ none)
        × (lookup new r.1.0.cache ≡ none)
        × (r.1.0.idle ≡ suc looked.idle)
  unfolding after_rename rename_callback Cache.remove
  renamed flags w there loop moved =
      subst
        (λ r.
          (r.0 ≡ ok (pos 0))
          × IsMoved old new apart U.C L U.limit body (ok tt, r.1.0.world)
          × (lookup old r.1.0.cache ≡ none)
          × (lookup new r.1.0.cache ≡ none)
          × (r.1.0.idle ≡ suc looked.idle))
        (sym (
          ap
            (bind_result
              (when_found U (λ st'. do_with_retry (pool U) (rename_job U old new flags st'))))
            there
          ∙ loop))
        (
          refl,
          record { done = refl; online = moved.online; exact = moved.exact; clear = moved.clear },
          ground (
            arith,
            lookup-erase new old (Cache.remove old looked.cache),
            lookup-erase old old looked.cache,
            text_eq_refl old,
          ),
          ground (arith, lookup-erase new new (Cache.remove old looked.cache), text_eq_refl new),
          refl,
        )

module _ (U : Setup) (L : Cloud.IsLawful U.C) (old new : Text) (apart : text_eq old new ≡ false)
    (body : Bytes) (fs found looked : Fs U) (st nothing : Stat) where
  open L use {entry, IsOnline}

  -- Where the look-up of the old path answers 0, with the size of a file that the cloud holds exactly,
  -- and the look-up of the new path, with one client less, answers an error, the cloud having no file
  -- there: over a working connection, neither path being the name of a part of the other, and the new
  -- name being unused in the old folder too if it is another name, a rename answers 0. The file is then
  -- held under the new path, in one piece or in parts, and neither it nor a part is left under the old
  -- one, the cache holds no stat of either path, and the client is given back.
  pub rename_callback-IsMoved :
      (flags k : ℕ)
      → stat_of U old (fs, tt) ≡ (ok (pos 0, st), (found, tt))
      → 0 < found.idle
      → stat_of U new (record found { idle = found.idle - 1 }, tt)
        ≡ (ok (negsuc k, nothing), (looked, tt))
      → st.size ≡ length body
      → AreUnrelated old new apart U.C L
      → IsOnline looked.world
      → IsExact U.limit (entry looked.world) old body
      → IsClear (entry looked.world) new
      → HasWays (entry looked.world) old new
      → let r = rename_callback U old new flags (fs, tt) in
        (r.0 ≡ ok (pos 0))
        × IsMoved old new apart U.C L U.limit body (ok tt, r.1.0.world)
        × (lookup old r.1.0.cache ≡ none)
        × (lookup new r.1.0.cache ≡ none)
        × (r.1.0.idle ≡ suc looked.idle)
  unfolding after_rename rename_callback Cache.remove Node.node_of_stat
  rename_callback-IsMoved flags k there some_idle missing size u on x free way =
      let lent : Fs U = record found { idle = found.idle - 1 } in
      let moved =
        rename_node-IsMoved old new apart U.C L U.S U.limit body looked.world (node_at U st) size u
          on x free way in
      let w = (Node.rename_node U.S U.C U.limit old new (node_at U st, looked.world)).1.1 in
      let try =
        leased_steps (pool U) (rename_job U old new flags st) (found, tt)
          (after_rename U old new looked w, tt) (ok (pos 0)) some_idle
          (rename_job_steps U old new flags k lent looked st nothing missing moved.done) in
      let loop =
        do_with_retry_answer (pool U) 0 (pos 0) start (omega arith) (ap (λ r. r.0) try)
        ∙ ap (λ r. (ok (pos 0), r.1)) try in
      renamed U L old new apart body fs found looked st flags w there loop moved

module _ (U : Setup) (L : Cloud.IsLawful U.C) (old new : Text) (apart : text_eq old new ≡ false)
    (body gone : Bytes) (fs found looked : Fs U) (st target : Stat) where
  open L use {entry, IsOnline}

  abbrev forgotten : Fs U
  forgotten = record looked { cache = Cache.remove new (Cache.remove old looked.cache) }

  -- The job, where the target exists and may be replaced.
  rename_job_replaces :
      (flags : ℕ) (fs' : Fs U) (w w' : U.C.World)
      → no_replace U flags ≡ false
      → exchange U flags ≡ false
      → stat_of U new (fs', tt) ≡ (ok (pos 0, target), (looked, tt))
      → ((Node.remove_node U.S U.C U.limit new (node_at U target, looked.world)).0 ≡ ok tt)
        × ((Node.remove_node U.S U.C U.limit new (node_at U target, looked.world)).1.1 ≡ w)
      → ((Node.rename_node U.S U.C U.limit old new (node_at U st, w)).0 ≡ ok tt)
        × ((Node.rename_node U.S U.C U.limit old new (node_at U st, w)).1.1 ≡ w')
      → rename_job U old new flags st (fs', tt)
        ≡ (ok (pos 0), (record forgotten { world = w' }, tt))
  unfolding rename_job replace_target
  rename_job_replaces flags fs' w w' may no_swap there (removed, to_w) (moved, to_w') =
      ap
        (bind_result (λ found'.
          on_cache U (Cache.remove old)
          >> (on_cache U (Cache.remove new)
              >> with_target U (replace_target U old new flags st) (move U st old new >> done U)
                  found')))
        there
      ∙ (rw (may, no_swap)
          ((λ i.
              bind_result (λ _. move U st old new >> done U)
                (removed i, (record forgotten { world = to_w i }, tt)))
            ∙ λ i. bind_result (λ _. done U) (moved i, (record forgotten { world = to_w' i }, tt))))

  -- Where both paths are found, the cloud holding a file exactly under each, with the sizes of the two
  -- stats, and the flags allow the target to be replaced: over a working connection, neither path being
  -- the name of a part of the other, and the way being clear once the target is gone, a rename answers
  -- 0. The new path then holds the file of the old one and nothing of what it replaced, nothing is left
  -- under the old path, the cache holds no stat of either, and the client is given back.
  pub rename_callback-replaces :
      (flags : ℕ)
      → no_replace U flags ≡ false
      → exchange U flags ≡ false
      → stat_of U old (fs, tt) ≡ (ok (pos 0, st), (found, tt))
      → 0 < found.idle
      → stat_of U new (record found { idle = found.idle - 1 }, tt)
        ≡ (ok (pos 0, target), (looked, tt))
      → st.size ≡ length body
      → target.size ≡ length gone
      → AreUnrelated old new apart U.C L
      → IsOnline looked.world
      → IsExact U.limit (entry looked.world) old body
      → IsExact U.limit (entry looked.world) new gone
      → HasWays (cleared U.limit new (length gone) (entry looked.world)) old new
      → let r = rename_callback U old new flags (fs, tt) in
        (r.0 ≡ ok (pos 0))
        × IsMoved old new apart U.C L U.limit body (ok tt, r.1.0.world)
        × (lookup old r.1.0.cache ≡ none)
        × (lookup new r.1.0.cache ≡ none)
        × (r.1.0.idle ≡ suc looked.idle)
  unfolding rename_callback Cache.remove Node.node_of_stat after_rename marc_fs.Dict.erase
  rename_callback-replaces flags may no_swap there some_idle taken size size' u on x y way =
      let removed =
        remove_node-Gives U.S U.C L U.limit new gone looked.world (node_at U target) size' on y in
      let w = (Node.remove_node U.S U.C U.limit new (node_at U target, looked.world)).1.1 in
      let same : cleared U.limit new (length gone) (entry looked.world) ≡ entry w = sym removed.2 in
      let moved =
        rename_node-IsMoved old new apart U.C L U.S U.limit body w (node_at U st) size u removed.1
          (subst (λ f. IsExact U.limit f old body) same
            (cleared-IsExact old new apart U.C L U.limit (length gone) body (entry looked.world) u
              x))
          (subst (λ f. IsClear f new) same
            (cleared-IsClear U.limit new gone (entry looked.world) y))
          (subst (λ f. HasWays f old new) same way) in
      let w' = (Node.rename_node U.S U.C U.limit old new (node_at U st, w)).1.1 in
      let lent : Fs U = record found { idle = found.idle - 1 } in
      let try =
        leased_steps (pool U) (rename_job U old new flags st) (found, tt)
          (record forgotten { world = w' }, tt) (ok (pos 0)) some_idle
          (rename_job_replaces flags lent w w' may no_swap taken (removed.0, refl)
            (moved.done, refl)) in
      let loop =
        do_with_retry_answer (pool U) 0 (pos 0) start (omega arith) (ap (λ r. r.0) try)
        ∙ ap (λ r. (ok (pos 0), r.1)) try in
      renamed U L old new apart body fs found looked st flags w' there loop moved
