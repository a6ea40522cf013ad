-- ===== src/Hooks/Frames/Files.antt =====
-- What the callbacks on open files keep.
use marc_fs.Base.{
  ℕ, zero, suc, ◌≡◌, refl, inl, inr, Option, none, some, [], ◌∷◌, ◌++◌, Bool-cases, pos, M, pure,
  ok, fail, ◌>>=◌, Text, Result, bind_result, codes,
}
use marc_fs.Cache
use marc_fs.Cache.{Cache, CacheNode}
use marc_fs.Parts.{part_name, is_compound, part_count, for_parts}
use marc_fs.Node
use marc_fs.Node.{Node}
use marc_fs.Retry.{do_with_retry}
use marc_fs.Hooks.{Setup, Handle, file_node, dir_node, Fs, With, pool, on_client, set_handle}
use marc_fs.Hooks.Links.{
  say, public_link, share_one, share_job, stat_of, gather, fill_link, linked, match_link,
  handle_links,
}
use marc_fs.Hooks.Files.{
  keep_node, open_cached, open_job, open_callback, opendir_callback, releasedir_callback, on_handle,
  on_file, release_callback, flushed, flush_handle, flush_job, flush_callback, reupload, reuploaded,
  truncate_job, truncated, truncate_handle, truncate_callback,
}
use marc_fs.Hooks.Frames.{
  Frame, Keeps, bind_result_keeps, >>=-Keeps, on_client-Keeps, stat_of-Keeps,
}

-- A frame that also allows what is done to open objects: a new one at the next address, and changes
-- of those that a request names.
pub record FileFrame (U : Setup) (F : Frame U) (IsNamed : ℕ → Type 0) : Type 0 where
  pub sets :
      (h : ℕ) (n m : Node U.S) (fs : Fs U)
      → IsNamed h
      → fs.handles h ≡ some (file_node n)
      → F.Rel fs (set_handle U h (some (file_node m)) fs)
  pub drops : (h : ℕ) (fs : Fs U) → IsNamed h → F.Rel fs (set_handle U h none fs)
  pub opens :
      (v : Handle U) (fs : Fs U)
      → F.Rel fs
          (record (set_handle U fs.next_handle (some v) fs) { next_handle = suc fs.next_handle })

module _ (U : Setup) (F : Frame U) where
  pub say-Keeps : (t : Text) → Keeps U F (say U t)
  say-Keeps t (fs, link) = F.same fs

  pub share_one-Keeps : (path : Text) → Keeps U F (share_one U path)
  unfolding share_one
  share_one-Keeps path =
      >>=-Keeps U F (say U (path ++ codes ": ")) (λ _. ask) (say-Keeps (path ++ codes ": "))
        (λ _.
          >>=-Keeps U F (on_client U (U.C.share path)) tell (on_client-Keeps U F (U.C.share path))
            (λ url. say-Keeps (public_link ++ (47 ∷ (url ++ (10 ∷ []))))))
    where
      tell : Text → M (With U Text) (Unit {0})
      tell url = say U (public_link ++ (47 ∷ (url ++ (10 ∷ []))))

      ask : M (With U Text) (Unit {0})
      ask = on_client U (U.C.share path) >>= tell

  pub for_parts-Keeps :
      {A : Type 0} (f : ℕ → M (With U A) (Unit {0})) (left i : ℕ)
      → ((k : ℕ) → Keeps U F (f k))
      → Keeps U F (for_parts f left i)
  unfolding for_parts
  for_parts-Keeps f zero i h t = F.same t.0
  for_parts-Keeps f (suc left) i h t =
      >>=-Keeps U F (f i) (λ _. for_parts f left (suc i)) (h i)
        (λ _. for_parts-Keeps f left (suc i) h) t

  pub share_job-Keeps : (path : Text) (size : ℕ) → Keeps U F (share_job U path size)
  unfolding share_job
  share_job-Keeps path size t = elim (Bool-cases (is_compound U.limit size)) [
    | inl big ↦ rw big (
        >>=-Keeps U F
          (for_parts (λ idx. share_one U (part_name path idx)) (part_count U.limit size) 0)
          (λ _. pure (pos 0))
          (for_parts-Keeps _ (part_count U.limit size) 0 (λ k. share_one-Keeps (part_name path k)))
          (λ _ u. F.same u.0) t)
    | inr small ↦ rw small (
        >>=-Keeps U F (share_one U path) (λ _. pure (pos 0)) (share_one-Keeps path)
          (λ _ u. F.same u.0) t)
  ]

  pub gather-Keeps : (path : Text) (size : ℕ) → Keeps U F (gather U path size)
  unfolding gather
  gather-Keeps path size (fs, a) =
      let r = do_with_retry (pool U) (share_job U path size) (fs, []) in
      bind_result_keeps U F (λ code t. (ok r.1.1, t)) (r.0, (r.1.0, a))
        (F.of_retry (share_job U path size) (share_job-Keeps path size) (fs, []))
        (λ code t. F.same t.0)

  reuploaded-Rel :
      (path : Text) (fs : Fs U) (r : Result (Unit {0}) × (Node U.S × U.C.World))
      → F.Rel fs (reuploaded U path fs r).1.0
  unfolding reuploaded
  reuploaded-Rel path fs (ok _, (n, w)) = F.chain (F.of_world w fs) (F.of_cache _ _)
  reuploaded-Rel path fs (fail e, (n, w)) = F.of_world w fs

  pub truncate_job-Keeps : (path : Text) (size : ℕ) → Keeps U F (truncate_job U path size)
  unfolding truncate_job
  truncate_job-Keeps path size (fs, a) = reuploaded-Rel path fs (reupload U path size _)

module _ (U : Setup) (F : Frame U) (IsNamed : ℕ → Type 0) (G : FileFrame U F IsNamed) where
  keep_node-Rel :
      (r : Result (Unit {0}) × (Node U.S × U.C.World)) (fs : Fs U) (fh : Option ℕ)
      → F.Rel fs (keep_node U r fs fh).1.0
  unfolding keep_node
  keep_node-Rel (ok _, (n, w)) fs fh = F.chain (G.opens (file_node n) fs) (F.of_world w _)
  keep_node-Rel (fail e, (n, w)) fs fh = F.of_world w fs

  open_cached-Rel :
      (path : Text) (r : Option CacheNode × Cache) (fs : Fs U) (fh : Option ℕ)
      → F.Rel fs (open_cached U path r fs fh).1.0
  unfolding open_cached
  open_cached-Rel path (none, c) fs fh = F.of_cache c fs
  open_cached-Rel path (some cached, c) fs fh = F.chain (F.of_cache c fs) (
      keep_node-Rel
        (Node.open_node U.S U.C U.limit path (
          Node.node_of_stat U.S U.C U.limit U.fresh_storage cached.stbuf.size cached.stbuf.mtime,
          fs.world,
        ))
        _ fh)

  pub open_job-Keeps : (path : Text) → Keeps U F (open_job U path)
  unfolding open_job
  open_job-Keeps path (fs, fh) = open_cached-Rel path (Cache.get fs.steady path fs.cache) fs fh

  pub open_callback-Keeps : (path : Text) → Keeps U F (open_callback U path)
  unfolding open_callback
  open_callback-Keeps path = F.of_retry (open_job U path) (open_job-Keeps path)

  pub opendir_callback-Keeps : Keeps U F (opendir_callback U)
  unfolding opendir_callback
  opendir_callback-Keeps (fs, fh) = G.opens dir_node fs

  pub releasedir_callback-Rel :
      (h : ℕ) (fs : Fs U) → IsNamed h → F.Rel fs (releasedir_callback U h fs).1
  unfolding releasedir_callback
  releasedir_callback-Rel h fs named = G.drops h fs named

  on_handle-Rel :
      {A : Type 0} (h : ℕ) (m : M (Node U.S) A) (fs : Fs U) (o : Option (Handle U))
      → IsNamed h
      → fs.handles h ≡ o
      → F.Rel fs (on_handle U h m fs o).1
  unfolding on_handle
  on_handle-Rel h m fs (some (file_node n)) named e = G.sets h n (m n).1 fs named e
  on_handle-Rel h m fs (some dir_node) named e = F.same fs
  on_handle-Rel h m fs none named e = F.same fs

  pub on_file-Rel :
      {A : Type 0} (h : ℕ) (m : M (Node U.S) A) (fs : Fs U)
      → IsNamed h
      → F.Rel fs (on_file U h m fs).1
  unfolding on_file
  on_file-Rel h m fs named = on_handle-Rel h m fs (fs.handles h) named refl

  bind_file :
      {A B : Type 0} {fs : Fs U} (k : A → M (Fs U) B) (r : Result A × Fs U)
      → F.Rel fs r.1
      → ((a : A) (s : Fs U) → F.Rel s (k a s).1)
      → F.Rel fs (bind_result k r).1
  bind_file k (ok a, s) x g = F.chain x (g a s)
  bind_file k (fail e, s) x g = x

  pub release_callback-Rel : (h : ℕ) (fs : Fs U) → IsNamed h → F.Rel fs (release_callback U h fs).1
  unfolding release_callback
  release_callback-Rel h fs named =
      bind_file _ (on_file U h (λ n. (ok tt, Node.release_node U.S n)) fs)
        (on_file-Rel h _ fs named) (λ _ s. G.drops h s named)

  pub fill_link-Keeps :
      (h : ℕ) (link : Text) → IsNamed h → Keeps U F (fill_link U (λ A m. on_file U h m) link)
  unfolding fill_link
  fill_link-Keeps h link named (fs, a) =
      bind_file _ (on_file U h (Node.truncate_node U.S 0) fs)
        (on_file-Rel h (Node.truncate_node U.S 0) fs named)
        λ _ s.
          bind_file (λ _. pure tt) (on_file U h (Node.write_node U.S fs.time link 0) s)
            (on_file-Rel h (Node.write_node U.S fs.time link 0) s named) (λ _ u. F.same u)

  pub linked-Keeps :
      (h : ℕ) (o : Option Text) → IsNamed h → Keeps U F (linked U (λ A m. on_file U h m) o)
  unfolding linked
  linked-Keeps h none named t = F.same t.0
  linked-Keeps h (some orig) named t =
      >>=-Keeps U F (stat_of U orig)
        (λ info. gather U orig info.1.size >>= fill_link U (λ A m. on_file U h m))
        (stat_of-Keeps U F orig)
        (λ info.
          >>=-Keeps U F (gather U orig info.1.size) (fill_link U (λ A m. on_file U h m))
            (gather-Keeps U F orig info.1.size) (λ link. fill_link-Keeps h link named))
        t

  flushed-Rel :
      (h : ℕ) (path : Text) (fs : Fs U) (n : Node U.S)
      (r : Result (Unit {0}) × (Node U.S × U.C.World))
      → IsNamed h
      → fs.handles h ≡ some (file_node n)
      → F.Rel fs (flushed U h path fs r).1
  unfolding flushed
  flushed-Rel h path fs n (ok _, (m, w)) named e =
      F.chain (G.sets h n m fs named e) (F.chain (F.of_world w _) (F.of_cache _ _))
  flushed-Rel h path fs n (fail x, (m, w)) named e =
      F.chain (G.sets h n m fs named e) (F.of_world w _)

  flush_handle-Rel :
      (h : ℕ) (path : Text) (fs : Fs U) (o : Option (Handle U))
      → IsNamed h
      → fs.handles h ≡ o
      → F.Rel fs (flush_handle U h path fs o).1
  unfolding flush_handle
  flush_handle-Rel h path fs (some (file_node n)) named e =
      flushed-Rel h path fs n (Node.flush U.S U.C U.limit path (n, fs.world)) named e
  flush_handle-Rel h path fs (some dir_node) named e = F.same fs
  flush_handle-Rel h path fs none named e = F.same fs

  pub flush_job-Keeps : (h : ℕ) (path : Text) → IsNamed h → Keeps U F (flush_job U h path)
  unfolding flush_job
  flush_job-Keeps h path named (fs, a) = flush_handle-Rel h path fs (fs.handles h) named refl

  pub flush_callback-Keeps : (path : Text) (h : ℕ) → IsNamed h → Keeps U F (flush_callback U path h)
  unfolding flush_callback handle_links
  flush_callback-Keeps path h named =
      >>=-Keeps U F (linked U (λ A m. on_file U h m) (match_link path))
        (λ _. do_with_retry (pool U) (flush_job U h path)) (linked-Keeps h (match_link path) named)
        (λ _. F.of_retry (flush_job U h path) (flush_job-Keeps h path named))

  truncated-Rel :
      (path : Text) (h : ℕ) (fs : Fs U) (n : Node U.S) (r : Result (Unit {0}) × Node U.S)
      → IsNamed h
      → fs.handles h ≡ some (file_node n)
      → F.Rel fs (truncated U path h fs r).1
  unfolding truncated
  truncated-Rel path h fs n (ok _, m) named e = F.chain (G.sets h n m fs named e) (F.of_cache _ _)
  truncated-Rel path h fs n (fail x, m) named e = G.sets h n m fs named e

  truncate_handle-Rel :
      (path : Text) (size h : ℕ) (fs : Fs U) (o : Option (Handle U))
      → IsNamed h
      → fs.handles h ≡ o
      → F.Rel fs (truncate_handle U path size h fs o).1
  unfolding truncate_handle
  truncate_handle-Rel path size h fs (some (file_node n)) named e =
      truncated-Rel path h fs n (Node.truncate_node U.S size n) named e
  truncate_handle-Rel path size h fs (some dir_node) named e = F.same fs
  truncate_handle-Rel path size h fs none named e = F.same fs

  pub truncate_callback-Keeps :
      (path : Text) (size : ℕ) (fi : Option ℕ)
      → ((h : ℕ) → fi ≡ some h → IsNamed h)
      → Keeps U F (truncate_callback U path size fi)
  unfolding truncate_callback
  truncate_callback-Keeps path size (some h) named (fs, a) =
      truncate_handle-Rel path size h fs (fs.handles h) (named h refl) refl
  truncate_callback-Keeps path size none named t =
      F.of_retry (truncate_job U path size) (truncate_job-Keeps U F path size) t
