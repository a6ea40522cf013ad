-- ===== src/Hooks/Frames/Flows/Files.antt =====
-- The callbacks on open files do not wait for ever.
use marc_fs.Base.{
  ℕ, zero, suc, ◌≡◌, refl, inl, inr, Option, none, some, [], ◌∷◌, ◌++◌, arith, Bool-cases, false, ℤ,
  pos, M, pure, ok, fail, ◌>>=◌, ◌>>◌, Text, Result, codes,
}
use marc_fs.Cache.{Cache, CacheNode}
use marc_fs.Parts.{part_name, is_compound, part_count, for_parts}
use marc_fs.Node
use marc_fs.Node.{Node}
use marc_fs.Node.Prompt.{
  IsPromptClient, IsPromptStorage, open_node-IsPrompt, flush-IsPrompt, truncate_node-IsPrompt,
  write_node-IsPrompt,
}
use marc_fs.Retry.{do_with_retry}
use marc_fs.Retry.Prompt.{waits, IsPrompt, >>=-IsPrompt, bind_result-waits}
use marc_fs.Hooks.{Setup, Handle, file_node, dir_node, Fs, With, pool, on_client}
use marc_fs.Hooks.Links.{
  say, public_link, share_one, share_job, stat_of, gather, fill_link, linked, match_link,
  handle_links,
}
use marc_fs.Hooks.Files.{
  keep_node, open_cached, open_job, open_callback, on_handle, on_file, release_callback,
  utimens_callback, flushed, flush_handle, flush_job, flush_callback, reupload, reuploaded,
  truncate_job, truncated, truncate_handle, truncate_callback,
}
use marc_fs.Hooks.Frames.{Keeps, stat_of-Keeps}
use marc_fs.Hooks.Frames.Files.{
  share_one-Keeps, share_job-Keeps, gather-Keeps, open_job-Keeps, flush_job-Keeps,
  truncate_job-Keeps, linked-Keeps, for_parts-Keeps,
}
use marc_fs.Hooks.Frames.Idle.{idle_frame, idle-FileFrame}
use marc_fs.Hooks.Frames.Flows.{Flows, >>=-Flows, retry-Flows, stat_of-Flows}

module _ (U : Setup) (PS : IsPromptStorage U.S) (PC : IsPromptClient U.C) where
  on_handle-waits :
      {A : Type 0} (h : ℕ) (m : M (Node U.S) A) (fs : Fs U) (o : Option (Handle U))
      → IsPrompt m
      → waits (on_handle U h m fs o).0 ≡ false
  unfolding on_handle
  on_handle-waits h m fs (some (file_node n)) p = p n
  on_handle-waits h m fs (some dir_node) p = refl
  on_handle-waits h m fs none p = refl

  pub on_file-IsPrompt :
      {A : Type 0} (h : ℕ) (m : M (Node U.S) A) → IsPrompt m → IsPrompt (on_file U h m)
  unfolding on_file
  on_file-IsPrompt h m p fs = on_handle-waits h m fs (fs.handles h) p

  keep_node-waits :
      (r : Result (Unit {0}) × (Node U.S × U.C.World)) (fs : Fs U) (fh : Option ℕ)
      → waits r.0 ≡ false
      → waits (keep_node U r fs fh).0 ≡ false
  unfolding keep_node
  keep_node-waits (ok _, s) fs fh h = refl
  keep_node-waits (fail e, s) fs fh h = h

  open_cached-waits :
      (path : Text) (r : Option CacheNode × Cache) (fs : Fs U) (fh : Option ℕ)
      → waits (open_cached U path r fs fh).0 ≡ false
  unfolding open_cached
  open_cached-waits path (none, c) fs fh = refl
  open_cached-waits path (some cached, c) fs fh =
      keep_node-waits (Node.open_node U.S U.C U.limit path _) _ fh
        (open_node-IsPrompt U.S PS U.C PC U.limit path _)

  pub open_callback-Flows : (path : Text) → Flows U 2 (open_callback U path)
  unfolding open_callback open_job
  open_callback-Flows path =
      retry-Flows U 1 (open_job U path) (λ (fs, fh) h. open_cached-waits path _ fs fh)
        (open_job-Keeps U (idle_frame U) _ (idle-FileFrame U) path)

  share_one-Flows : (path : Text) → Flows U 1 (share_one U path)
  unfolding share_one
  share_one-Flows path (fs, link) h =
      bind_result-waits (λ url. say U (public_link ++ (47 ∷ (url ++ (10 ∷ [])))))
        (on_client U (U.C.share path) (fs, link ++ (path ++ codes ": "))) (PC.share path fs.world)
        (λ url t e. refl)

  for_parts-Flows :
      {A : Type 0} (f : ℕ → M (With U A) (Unit {0})) (left i : ℕ)
      → ((k : ℕ) → Flows U 1 (f k))
      → ((k : ℕ) → Keeps U (idle_frame U) (f k))
      → Flows U 1 (for_parts f left i)
  unfolding for_parts
  for_parts-Flows f zero i g keep t h = refl
  for_parts-Flows f (suc left) i g keep t h =
      >>=-Flows U 1 (f i) (λ _. for_parts f left (suc i)) (g i) (keep i)
        (λ _. for_parts-Flows f left (suc i) g keep) t h

  share_job-Flows : (path : Text) (size : ℕ) → Flows U 1 (share_job U path size)
  unfolding share_job
  share_job-Flows path size t h =
      let parts = λ (idx : ℕ). share_one U (part_name path idx) in
      let F = idle_frame U in
      elim (Bool-cases (is_compound U.limit size)) [
        | inl big ↦ rw big (
            >>=-Flows U 1 (for_parts parts (part_count U.limit size) 0) (λ _. pure (pos 0))
              (for_parts-Flows parts (part_count U.limit size) 0
                (λ k. share_one-Flows (part_name path k))
                (λ k. share_one-Keeps U F (part_name path k)))
              (for_parts-Keeps U F parts (part_count U.limit size) 0
                (λ k. share_one-Keeps U F (part_name path k)))
              (λ _ u g. refl) t h)
        | inr small ↦ rw small (
            >>=-Flows U 1 (share_one U path) (λ _. pure (pos 0)) (share_one-Flows path)
              (share_one-Keeps U F path) (λ _ u g. refl) t h)
      ]

  gather-Flows : (path : Text) (size : ℕ) → Flows U 2 (gather U path size)
  unfolding gather
  gather-Flows path size (fs, a) h =
      let r = do_with_retry (pool U) (share_job U path size) (fs, []) in
      bind_result-waits (λ code t. (ok r.1.1, t)) (r.0, (r.1.0, a))
        (retry-Flows U 1 (share_job U path size) (share_job-Flows path size)
          (share_job-Keeps U (idle_frame U) path size) (fs, []) h)
        (λ code t e. refl)

  fill_link-Flows : (h n : ℕ) (link : Text) → Flows U n (fill_link U (λ A m. on_file U h m) link)
  unfolding fill_link
  fill_link-Flows h n link (fs, a) le =
      let write = Node.write_node U.S fs.time link 0 in
      >>=-IsPrompt (on_file U h (Node.truncate_node U.S 0))
        (λ _. on_file U h write >>= λ _. pure tt)
        (on_file-IsPrompt h (Node.truncate_node U.S 0) (truncate_node-IsPrompt U.S PS 0))
        (λ _.
          >>=-IsPrompt (on_file U h write) (λ _. pure tt)
            (on_file-IsPrompt h write (write_node-IsPrompt U.S PS fs.time link 0)) (λ _ s. refl))
        fs

  linked-Flows : (h : ℕ) (o : Option Text) → Flows U 2 (linked U (λ A m. on_file U h m) o)
  unfolding linked
  linked-Flows h none t le = refl
  linked-Flows h (some orig) t le =
      >>=-Flows U 2 (stat_of U orig)
        (λ info. gather U orig info.1.size >>= fill_link U (λ A m. on_file U h m))
        (stat_of-Flows U PC 2 orig (omega arith)) (stat_of-Keeps U (idle_frame U) orig)
        (λ info.
          >>=-Flows U 2 (gather U orig info.1.size) (fill_link U (λ A m. on_file U h m))
            (gather-Flows orig info.1.size) (gather-Keeps U (idle_frame U) orig info.1.size)
            (λ link. fill_link-Flows h 2 link))
        t le

  flushed-waits :
      (h : ℕ) (path : Text) (fs : Fs U) (r : Result (Unit {0}) × (Node U.S × U.C.World))
      → waits r.0 ≡ false
      → waits (flushed U h path fs r).0 ≡ false
  unfolding flushed
  flushed-waits h path fs (ok _, s) p = refl
  flushed-waits h path fs (fail e, s) p = p

  flush_handle-waits :
      (h : ℕ) (path : Text) (fs : Fs U) (o : Option (Handle U))
      → waits (flush_handle U h path fs o).0 ≡ false
  unfolding flush_handle
  flush_handle-waits h path fs (some (file_node n)) =
      flushed-waits h path fs (Node.flush U.S U.C U.limit path (n, fs.world))
        (flush-IsPrompt U.S PS U.C PC U.limit path (n, fs.world))
  flush_handle-waits h path fs (some dir_node) = refl
  flush_handle-waits h path fs none = refl

  flush_job-Flows : (h : ℕ) (path : Text) → Flows U 1 (flush_job U h path)
  unfolding flush_job
  flush_job-Flows h path (fs, a) le = flush_handle-waits h path fs (fs.handles h)

  pub flush_callback-Flows : (path : Text) (h : ℕ) → Flows U 2 (flush_callback U path h)
  unfolding flush_callback handle_links
  flush_callback-Flows path h =
      let G = idle-FileFrame U in
      >>=-Flows U 2 (linked U (λ A m. on_file U h m) (match_link path))
        (λ _. do_with_retry (pool U) (flush_job U h path)) (linked-Flows h (match_link path))
        (linked-Keeps U (idle_frame U) _ G h (match_link path) tt)
        (λ _.
          retry-Flows U 1 (flush_job U h path) (flush_job-Flows h path)
            (flush_job-Keeps U (idle_frame U) _ G h path tt))

  reupload-IsPrompt : (path : Text) (size : ℕ) → IsPrompt (reupload U path size)
  unfolding reupload
  reupload-IsPrompt path size =
      let cut : M (Node U.S × U.C.World) (Unit {0}) =
        λ (n, w). let (r, n') = Node.truncate_node U.S size n in (r, (n', w)) in
      let last : M (Node U.S × U.C.World) (Unit {0}) =
        λ (n, w). (ok tt, (Node.release_node U.S n, w)) in
      >>=-IsPrompt (Node.open_node U.S U.C U.limit path)
        (λ _. cut >> (Node.flush U.S U.C U.limit path >> last))
        (open_node-IsPrompt U.S PS U.C PC U.limit path)
        (λ _.
          >>=-IsPrompt cut (λ _. Node.flush U.S U.C U.limit path >> last)
            (λ (n, w). truncate_node-IsPrompt U.S PS size n)
            (λ _.
              >>=-IsPrompt (Node.flush U.S U.C U.limit path) (λ _. last)
                (flush-IsPrompt U.S PS U.C PC U.limit path) (λ _ s. refl)))

  reuploaded-waits :
      (path : Text) (fs : Fs U) (r : Result (Unit {0}) × (Node U.S × U.C.World))
      → waits r.0 ≡ false
      → waits (reuploaded U path fs r).0 ≡ false
  unfolding reuploaded
  reuploaded-waits path fs (ok _, s) h = refl
  reuploaded-waits path fs (fail e, s) h = h

  truncate_job-Flows : (path : Text) (size : ℕ) → Flows U 1 (truncate_job U path size)
  unfolding truncate_job
  truncate_job-Flows path size (fs, a) h =
      let n = Node.fresh_node U.S U.C U.limit U.fresh_storage fs.time in
      reuploaded-waits path fs (reupload U path size (n, fs.world))
        (reupload-IsPrompt path size (n, fs.world))

  truncated-waits :
      (path : Text) (h : ℕ) (fs : Fs U) (r : Result (Unit {0}) × Node U.S)
      → waits r.0 ≡ false
      → waits (truncated U path h fs r).0 ≡ false
  unfolding truncated
  truncated-waits path h fs (ok _, n) p = refl
  truncated-waits path h fs (fail e, n) p = p

  truncate_handle-waits :
      (path : Text) (size h : ℕ) (fs : Fs U) (o : Option (Handle U))
      → waits (truncate_handle U path size h fs o).0 ≡ false
  unfolding truncate_handle
  truncate_handle-waits path size h fs (some (file_node n)) =
      truncated-waits path h fs (Node.truncate_node U.S size n)
        (truncate_node-IsPrompt U.S PS size n)
  truncate_handle-waits path size h fs (some dir_node) = refl
  truncate_handle-waits path size h fs none = refl

  pub truncate_callback-Flows :
      (path : Text) (size : ℕ) (fi : Option ℕ) → Flows U 2 (truncate_callback U path size fi)
  unfolding truncate_callback
  truncate_callback-Flows path size (some h) (fs, a) le =
      truncate_handle-waits path size h fs (fs.handles h)
  truncate_callback-Flows path size none t le =
      retry-Flows U 1 (truncate_job U path size) (truncate_job-Flows path size)
        (truncate_job-Keeps U (idle_frame U) path size) t le

  pub release_callback-IsPrompt : (h : ℕ) → IsPrompt (release_callback U h)
  unfolding release_callback
  release_callback-IsPrompt h fs =
      let closing : M (Node U.S) (Unit {0}) = λ n. (ok tt, Node.release_node U.S n) in
      bind_result-waits _ (on_file U h closing fs) (on_file-IsPrompt h closing (λ n. refl) fs)
        (λ _ s e. refl)

  pub utimens_callback-IsPrompt :
      (fi : Option ℕ) (seconds : ℤ) → IsPrompt (utimens_callback U fi seconds)
  unfolding utimens_callback
  utimens_callback-IsPrompt none seconds fs = refl
  utimens_callback-IsPrompt (some h) seconds fs = on_file-IsPrompt h _ (λ n. refl) fs
