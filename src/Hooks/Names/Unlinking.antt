-- ===== src/Hooks/Names/Unlinking.antt =====
-- `unlinkCallback` over a lawful client.
use marc_fs.Base.{
  ◌-◌, ◌<◌, ◌≡◌, refl, sym, ap, subst, ◌∙◌, none, arith, length, pos, ok, bind_result, ◌>>◌,
  text_eq_refl, Bytes, Text,
}
use marc_fs.Cloud
use marc_fs.Dict.{lookup, lookup-erase}
use marc_fs.Cache
use marc_fs.Node
use marc_fs.Node.{Node}
use marc_fs.Node.Exact.{IsExact, IsClear}
use marc_fs.Node.Remove.{remove_node-IsClear}
use marc_fs.Stat.{Stat}
use marc_fs.Retry.{do_with_retry}
use marc_fs.Retry.Laws.{start, leased_steps, do_with_retry_answer}
use marc_fs.Hooks.{Setup, Fs, pool, on_cache}
use marc_fs.Hooks.Links.{stat_of}
use marc_fs.Hooks.Names.{node_at, done, when_found, unlink_job, unlink_callback}

module _ (U : Setup) (path : Text) where
  -- The state after the file was removed.
  after_unlink : Fs U → U.C.World → Fs U
  after_unlink fs w = record fs { world = w; cache = Cache.remove path fs.cache }

  unlink_job_steps :
      (fs : Fs U) (st : Stat)
      → (Node.remove_node U.S U.C U.limit path (node_at U st, fs.world)).0 ≡ ok tt
      → unlink_job U path st (fs, tt) ≡ (
        ok (pos 0),
        (after_unlink fs (Node.remove_node U.S U.C U.limit path (node_at U st, fs.world)).1.1, tt),
      )
  unfolding unlink_job after_unlink
  unlink_job_steps fs st e =
      let r = Node.remove_node U.S U.C U.limit path (node_at U st, fs.world) in
      λ i.
        bind_result (λ _. on_cache U (Cache.remove path) >> done U)
          (e i, (record fs { world = r.1.1 }, tt))

module _ (U : Setup) (L : Cloud.IsLawful U.C) (path : Text) (body : Bytes) (fs found : Fs U)
    (st : Stat) where
  open L use {entry, IsOnline}

  -- Where the look-up of a path answers 0, with the size of a file that the cloud holds exactly, and
  -- leaves a client idle and the connection working, an unlink answers 0: neither the file nor a part of
  -- it is left in the cloud, its stat is no longer cached, and as many clients are idle as after the
  -- look-up.
  pub unlink_callback-IsClear :
      stat_of U path (fs, tt) ≡ (ok (pos 0, st), (found, tt))
      → st.size ≡ length body
      → 0 < found.idle
      → IsOnline found.world
      → IsExact U.limit (entry found.world) path body
      → let r = unlink_callback U path (fs, tt) in
        (r.0 ≡ ok (pos 0))
        × IsClear (entry r.1.0.world) path
        × (lookup path r.1.0.cache ≡ none)
        × (r.1.0.idle ≡ found.idle)
  unfolding after_unlink unlink_callback Cache.remove Node.node_of_stat
  unlink_callback-IsClear looked size some_idle on x =
      let lent : Fs U = record found { idle = found.idle - 1 } in
      let (removed, online, clear) =
        remove_node-IsClear U.S U.C L U.limit path body found.world (node_at U st) size on x in
      let w = (Node.remove_node U.S U.C U.limit path (node_at U st, found.world)).1.1 in
      let try =
        leased_steps (pool U) (unlink_job U path st) (found, tt) (after_unlink U path lent w, tt)
          (ok (pos 0)) some_idle (unlink_job_steps U path lent st removed) in
      let loop =
        do_with_retry_answer (pool U) 0 (pos 0) start (omega arith) (ap (λ r. r.0) try)
        ∙ ap (λ r. (ok (pos 0), r.1)) try in
      subst
        (λ r.
          (r.0 ≡ ok (pos 0))
          × IsClear (entry r.1.0.world) path
          × (lookup path r.1.0.cache ≡ none)
          × (r.1.0.idle ≡ found.idle))
        (sym (
          ap (bind_result (when_found U (λ st'. do_with_retry (pool U) (unlink_job U path st'))))
            looked
          ∙ loop))
        (
          refl,
          clear,
          ground (arith, lookup-erase path path lent.cache, text_eq_refl path),
          omega arith,
        )
