-- ===== src/Hooks/Files/Flushing.antt =====
-- `flushCallback` over a lawful storage and a lawful client.
use marc_fs.Base.{ℕ, ◌-◌, ◌≡◌, ◌∙◌, none, some, pos, ok, bind_result, Text}
use marc_fs.Storage
use marc_fs.Cloud
use marc_fs.Node
use marc_fs.Node.{Node}
use marc_fs.Retry.{do_with_retry}
use marc_fs.Hooks.{Setup, file_node, Fs, pool, set_handle}
use marc_fs.Hooks.Links.{match_link, handle_links, linked}
use marc_fs.Hooks.Files.{flush_job, flush_callback, flush_handle, flushed, restat, on_file}

module _ (U : Setup) (h : ℕ) (path : Text) (n : Node U.S) where
  -- The state after the flush of the node ended well.
  unfoldable pub after_flush : Fs U → Node U.S × U.C.World → Fs U
  after_flush fs (m, w) = record (set_handle U h (some (file_node m)) fs) {
    world = w;
    cache = restat U path m fs.cache;
  }

  pub flush_job_steps :
      (fs : Fs U) (a : Unit {0})
      → fs.handles h ≡ some (file_node n)
      → (Node.flush U.S U.C U.limit path (n, fs.world)).0 ≡ ok tt
      → flush_job U h path (fs, a)
        ≡ (ok (pos 0), (after_flush fs (Node.flush U.S U.C U.limit path (n, fs.world)).1, a))
  unfolding flush_job flush_handle flushed after_flush
  flush_job_steps fs a e done =
      let r = Node.flush U.S U.C U.limit path (n, fs.world) in
      (λ i. let (z, fs') = flush_handle U h path fs (e i) in (z, (fs', a)))
      ∙ (λ i. let (z, fs') = flushed U h path fs (done i, r.1) in (z, (fs', a)))

  lent : Fs U → Fs U
  lent fs = record fs { idle = fs.idle - 1 }

  pub flush_callback_steps :
      (fs : Fs U) (a : Unit {0})
      → match_link path ≡ none
      → flush_callback U path h (fs, a) ≡ do_with_retry (pool U) (flush_job U h path) (fs, a)
  unfolding flush_callback handle_links linked
  flush_callback_steps fs a plain i =
      bind_result (λ _. do_with_retry (pool U) (flush_job U h path))
        (linked U (λ A m. on_file U h m) (plain i) (fs, a))
