-- ===== src/Fuse/Sessions/Opening.antt =====
-- `open` at the start of a session.
use marc_fs.Base.{
  ℕ, ltb, false, ◌+◌, suc, ◌-◌, ◌<◌, ◌≡◌, refl, sym, ap, subst, ◌∙◌, Option, none, some, arith, ℤ,
  pos, ok, Result, bind_result, Bytes, Text,
}
use marc_fs.Storage
use marc_fs.Cloud
use marc_fs.Cache
use marc_fs.Cache.{CacheNode, Cache, cache_ttl}
use marc_fs.Cache.Laws.{get-young}
use marc_fs.Node
use marc_fs.Node.{Node}
use marc_fs.Node.Exact.{IsExact}
use marc_fs.Node.Open.{open_node-IsOpened}
use marc_fs.Retry.Once.{do_with_retry-first}
use marc_fs.Hooks.{Setup, file_node, Fs, With, pool, set_handle}
use marc_fs.Hooks.Files.{open_job, open_callback, open_cached, keep_node}
use marc_fs.Fuse.{open_file, handle, serve}
use marc_fs.Fuse.Sessions.{Rests, Edits}
use marc_fs.Fuse.Sessions.Moves.{own_handle}

module _ (U : Setup) (path : Text) where
  -- The node that is made for a cached stat.
  node_for : CacheNode → Node U.S
  node_for cached =
      Node.node_of_stat U.S U.C U.limit U.fresh_storage cached.stbuf.size cached.stbuf.mtime

  opened_state : Fs U → Node U.S × U.C.World → Fs U
  opened_state fs (n, w) = record (set_handle U fs.next_handle (some (file_node n)) fs) {
    world = w;
    next_handle = suc fs.next_handle;
  }

  open_job_steps :
      (fs : Fs U) (fh : Option ℕ) (cached : CacheNode)
      → Cache.get fs.steady path fs.cache ≡ (some cached, fs.cache)
      → (Node.open_node U.S U.C U.limit path (node_for cached, fs.world)).0 ≡ ok tt
      → open_job U path (fs, fh) ≡ (
        ok (pos 0),
        (
          opened_state fs (Node.open_node U.S U.C U.limit path (node_for cached, fs.world)).1,
          some fs.next_handle,
        ),
      )
  unfolding open_job open_cached keep_node opened_state node_for
  open_job_steps fs fh cached found done =
      let s = (Node.open_node U.S U.C U.limit path (node_for cached, fs.world)).1 in
      ap (λ r. open_cached U path r fs fh) found ∙ ap (λ r. keep_node U (r, s) fs fh) done

module _ (U : Setup) (LS : Storage.IsLawful U.S) (L : Cloud.IsLawful U.C) (path : Text) where
  open L use {entry, IsOnline}
  open LS use {view, IsReady, IsFresh}

  -- Over a working connection, `open` of a known file answers 0 and gives the next address, at which
  -- there is then an open file with what the cloud holds.
  pub open_file-Edits :
      (left : ℕ) (body : Bytes) (fs : Fs U)
      → 0 < U.limit
      → IsFresh U.fresh_storage
      → Rests U LS L path left body fs
      → (t : Fs U) × (serve U (open_file path) fs ≡ (ok (handle (pos 0) (some fs.next_handle)), t))
        × Rests U LS L path left body t
        × Edits U LS L path fs.next_handle (suc fs.next_handle) body body t
  unfolding serve open_callback node_for opened_state Node.node_of_stat
  open_file-Edits left body fs lim new x =
      let soon : ltb (x.cached.cached_since + cache_ttl) fs.steady ≡ false =
        ground (arith, x.young) in
      let lent : Fs U = record fs { idle = fs.idle - 1 } in
      let n = node_for U path x.cached in
      let r = Node.open_node U.S U.C U.limit path (n, fs.world) in
      let o =
        open_node-IsOpened U.S LS U.C L U.limit path body n fs.world lim refl new x.size x.online
          x.exact in
      let u = opened_state U path lent r.1 in
      let t : Fs U = record u { idle = suc u.idle } in
      let run =
        do_with_retry-first (pool U) (open_job U path) (fs, none) (u, some fs.next_handle) (pos 0)
          x.some_idle
          (open_job_steps U path lent none x.cached
            (get-young fs.steady path x.cached fs.cache x.known soon) o.done) in
      (
        t,
        ap
            (λ (p : Result ℤ × With U (Option ℕ)).
              bind_result (λ z s. (ok (handle z p.1.1), s)) (p.0, p.1.0))
            run,
        record {
          online = o.online;
          exact = subst (λ f. IsExact U.limit f path body) (sym o.same) x.exact;
          some_idle = omega arith;
          cached = x.cached;
          known = x.known;
          young = x.young;
          size = x.size;
        },
        record {
          node = r.1.0;
          there_is = own_handle U fs.next_handle (file_node r.1.0) lent;
          ready = o.ready;
          content = o.bytes;
          old_size = ap (λ (m : Node U.S). m.old_size) o.node ∙ x.size;
          clean = λ e. refl;
          next = refl;
        },
      )
