-- ===== src/Fuse/Sessions/Flushing.antt =====
-- `flush` and `release` in a session.
use marc_fs.Base.{
  ℕ, suc, ◌-◌, ◌≤◌, ◌≡◌, refl, sym, ap, subst, ◌∙◌, inl, inr, false, none, some, arith, Bool-cases,
  ℤ, pos, length, ok, Result, M, bind_result, is_nil, Bytes, Text,
}
use marc_fs.Storage
use marc_fs.Cloud
use marc_fs.Cache.Laws.{lookup-update}
use marc_fs.Stat.{fill_file_stat}
use marc_fs.Stat.Laws.{fill_file_stat-size}
use marc_fs.Node
use marc_fs.Node.{Node, get_size}
use marc_fs.Node.Exact.{IsExact}
use marc_fs.Node.Edit.{get_size-view}
use marc_fs.Node.Flush.{CanStore, flush-IsFlushed, flush_unchanged}
use marc_fs.Retry.Once.{do_with_retry-first}
use marc_fs.Hooks.{Setup, file_node, Fs, pool, set_handle}
use marc_fs.Hooks.Links.{match_link}
use marc_fs.Hooks.Files.{flush_job, release_callback}
use marc_fs.Hooks.Files.Flushing.{after_flush, flush_job_steps, flush_callback_steps}
use marc_fs.Fuse.{flush, release, code, serve}
use marc_fs.Fuse.Sessions.{Rests, Edits}
use marc_fs.Fuse.Sessions.Moves.{on_file_steps, own_handle, Rests-moved}

module _ (U : Setup) (LS : Storage.IsLawful U.S) (L : Cloud.IsLawful U.C) (path : Text) where
  open L use {entry, IsOnline}
  open LS use {view, IsReady}

  -- A flush, of a changed node or not, after which the cloud holds the node's content.
  record Sent (n : Node U.S) (body : Bytes) (r : Result (Unit {0}) × (Node U.S × U.C.World))
      : Type 0 where
    pub done : r.0 ≡ ok tt
    pub content : r.1.0.content ≡ n.content
    pub old_size : r.1.0.old_size ≡ length body
    pub online : IsOnline r.1.1
    pub exact : IsExact U.limit (entry r.1.1) path body

  flush-Sent :
      (old body : Bytes) (n : Node U.S) (w : U.C.World)
      → 20 ≤ U.limit
      → IsReady n.content
      → view n.content ≡ body
      → n.old_size ≡ length old
      → (n.dirty ≡ false → body ≡ old)
      → CanStore body
      → IsOnline w
      → IsExact U.limit (entry w) path old
      → Sent n body (Node.flush U.S U.C U.limit path (n, w))
  flush-Sent old body n w lim ready content size clean can on x = elim (Bool-cases n.dirty) [
    | inl dirty ↦
        let f =
          flush-IsFlushed U.S LS U.C L U.limit path old n w lim ready dirty size
            (subst CanStore (sym content) can) on x in
        record {
          done = f.done;
          content = ap (λ (m : Node U.S). m.content) f.node;
          old_size = ap (λ (m : Node U.S). m.old_size) f.node ∙ ap length content;
          online = f.online;
          exact = subst (IsExact U.limit (entry _) path) content f.exact;
        }
    | inr same ↦ subst (Sent n body) (sym (flush_unchanged U.S U.C U.limit path n w same)) (record {
      done = refl;
      content = refl;
      old_size = size ∙ ap length (sym (clean same));
      online = on;
      exact = subst (IsExact U.limit (entry w) path) (sym (clean same)) x;
    })
  ]

  get_size-body :
      (m : Node U.S) (body : Bytes)
      → IsReady m.content
      → view m.content ≡ body
      → m.old_size ≡ length body
      → get_size U.S m ≡ length body
  get_size-body m body ready content size =
      get_size-view U.S LS m ready ∙ elim (Bool-cases (is_nil (view m.content))) [
        | inl bare ↦ rw bare size
        | inr full ↦ rw full (ap length content)
      ]

  module _ (left h upcoming : ℕ) where
    -- Over a working connection, `flush` answers 0, and the cloud holds exactly the content then.
    pub flush-Edits :
        (old body : Bytes) (fs : Fs U)
        → 20 ≤ U.limit
        → match_link path ≡ none
        → CanStore body
        → Rests U LS L path left old fs
        → Edits U LS L path h upcoming old body fs
        → (t : Fs U) × (serve U (flush path h) fs ≡ (ok (code (pos 0)), t))
          × Rests U LS L path left body t
          × Edits U LS L path h upcoming body body t
    unfolding serve after_flush
    flush-Edits old body fs lim plain can x y =
        let lent : Fs U = record fs { idle = fs.idle - 1 } in
        let r = Node.flush U.S U.C U.limit path (y.node, fs.world) in
        let m = r.1.0 in
        let f =
          flush-Sent old body y.node fs.world lim y.ready y.content y.old_size y.clean can x.online
            x.exact in
        let u = after_flush U h path y.node lent r.1 in
        let t : Fs U = record u { idle = suc u.idle } in
        let run =
          flush_callback_steps U h path y.node fs tt plain
          ∙ do_with_retry-first (pool U) (flush_job U h path) (fs, tt) (u, tt) (pos 0) x.some_idle
              (flush_job_steps U h path y.node lent tt y.there_is f.done) in
        let ready : IsReady m.content = subst IsReady (sym f.content) y.ready in
        let content : view m.content ≡ body = ap view f.content ∙ y.content in
        (
          t,
          ap
              (λ (p : Result ℤ × (Fs U × Unit {0})).
                bind_result (λ z s. (ok (code z), s)) (p.0, p.1.0))
              run,
          record {
            online = f.online;
            exact = f.exact;
            some_idle = omega arith;
            cached = record x.cached { stbuf = fill_file_stat U.S U.context m x.cached.stbuf };
            known = lookup-update path (fill_file_stat U.S U.context m) x.cached fs.cache x.known;
            young = x.young;
            size =
                fill_file_stat-size U.S U.context m x.cached.stbuf
                ∙ get_size-body m body ready content f.old_size;
          },
          record {
            node = m;
            there_is = own_handle U h (file_node m) lent;
            ready = ready;
            content = content;
            old_size = f.old_size;
            clean = λ e. refl;
            next = y.next;
          },
        )

    pub release-Rests :
        (body : Bytes) (fs : Fs U)
        → Rests U LS L path left body fs
        → Edits U LS L path h upcoming body body fs
        → (t : Fs U) × (serve U (release h) fs ≡ (ok (code (pos 0)), t))
          × Rests U LS L path left body t
          × (t.next_handle ≡ upcoming)
    unfolding serve release_callback
    release-Rests body fs x y =
        let closing : M (Node U.S) (Unit {0}) = λ n. (ok tt, Node.release_node U.S n) in
        let run = on_file_steps U h closing y.node fs y.there_is in
        let s = set_handle U h (some (file_node (Node.release_node U.S y.node))) fs in
        (
          set_handle U h none s,
          ap
              (λ p.
                bind_result (λ z u. (ok (code z), u))
                  (bind_result (λ _ u. (ok (pos 0), set_handle U h none u)) p))
              run,
          Rests-moved U LS L path left fs _ _ x,
          y.next,
        )
