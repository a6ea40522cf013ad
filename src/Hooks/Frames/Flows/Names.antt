-- ===== src/Hooks/Frames/Flows/Names.antt =====
-- The callbacks that make, remove and rename entries do not wait for ever.
use marc_fs.Base.{
  ℕ, zero, suc, refl, inl, inr, arith, Bool-cases, is_nil, ℤ, pos, negsuc, M, ◌>>=◌, ◌>>◌, Text,
}
use marc_fs.Cache
use marc_fs.Stat.{Stat}
use marc_fs.Node
use marc_fs.Node.{Node}
use marc_fs.Node.Prompt.{
  IsPromptClient, IsPromptStorage, remove_node-IsPrompt, rename_node-IsPrompt,
}
use marc_fs.Retry.{do_with_retry}
use marc_fs.Retry.Prompt.{IsPrompt}
use marc_fs.Hooks.{Setup, pool, on_client, on_cache}
use marc_fs.Hooks.Links.{stat_of}
use marc_fs.Hooks.Names.{
  Job, on_node, done, mkdir_callback, mknod_callback, rmdir_job, rmdir_callback, unlink_job,
  unlink_callback, rename_job, rename_callback, replace_target, when_found, with_target, move,
  no_replace, exchange, temp_name,
}
use marc_fs.Hooks.Frames.{Keeps, on_client-Keeps, stat_of-Keeps}
use marc_fs.Hooks.Frames.Names.{
  on_node-Keeps, move-Keeps, then_done, rmdir_job-Keeps, unlink_job-Keeps, rename_job-Keeps,
}
use marc_fs.Hooks.Frames.Idle.{idle_frame}
use marc_fs.Hooks.Frames.Flows.{Flows, >>=-Flows, retry-Flows, on_client-Flows, stat_of-Flows}

module _ (U : Setup) (PS : IsPromptStorage U.S) (PC : IsPromptClient U.C) where
  -- One part of a job, then the rest.
  and_then :
      {B : Type 0} (n : ℕ) (m : Job U B) (k : Job U ℤ)
      → Flows U n m
      → Keeps U (idle_frame U) m
      → Flows U n k
      → Flows U n (m >>= λ _. k)
  and_then n m k f keep g = >>=-Flows U n m (λ _. k) f keep (λ _. g)

  done-Flows : (n : ℕ) → Flows U n (done U)
  done-Flows n t h = refl

  drop_entry-Flows :
      (n : ℕ) (path : Text) (m : Job U (Unit {0}))
      → Flows U n m
      → Keeps U (idle_frame U) m
      → Flows U n (m >> (on_cache U (Cache.remove path) >> done U))
  drop_entry-Flows n path m f keep =
      and_then n m (on_cache U (Cache.remove path) >> done U) f keep (λ t h. refl)

  -- A call of the client on its own.
  call_then_done :
      {B : Type 0} (m : M U.C.World B)
      → IsPrompt m
      → Flows U 2 (do_with_retry (pool U) (on_client U m >>= λ _. done U))
  call_then_done m p =
      retry-Flows U 1 (on_client U m >>= λ _. done U)
        (and_then 1 (on_client U m) (done U) (on_client-Flows U 1 m p)
          (on_client-Keeps U (idle_frame U) m) (done-Flows 1))
        (then_done U (idle_frame U) (on_client U m) (on_client-Keeps U (idle_frame U) m))

  pub mkdir_callback-Flows : (path : Text) → Flows U 2 (mkdir_callback U path)
  unfolding mkdir_callback
  mkdir_callback-Flows path = call_then_done (U.C.mkdir path) (PC.mkdir path)

  pub mknod_callback-Flows : (path : Text) → Flows U 2 (mknod_callback U path)
  unfolding mknod_callback
  mknod_callback-Flows path = call_then_done (U.C.create path) (PC.create path)

  rmdir_job-Flows : (path : Text) → Flows U 1 (rmdir_job U path)
  unfolding rmdir_job
  rmdir_job-Flows path =
      >>=-Flows U 1 (on_client U (U.C.ls path)) _ (on_client-Flows U 1 (U.C.ls path) (PC.ls path))
        (on_client-Keeps U (idle_frame U) (U.C.ls path))
        λ contents t h. elim (Bool-cases (is_nil contents)) [
          | inl bare ↦ rw bare (
              drop_entry-Flows 1 path (on_client U (U.C.remove path))
                (on_client-Flows U 1 (U.C.remove path) (PC.remove path))
                (on_client-Keeps U (idle_frame U) (U.C.remove path)) t h)
          | inr full ↦ rw full refl
        ]

  pub rmdir_callback-Flows : (path : Text) → Flows U 2 (rmdir_callback U path)
  unfolding rmdir_callback
  rmdir_callback-Flows path =
      retry-Flows U 1 (rmdir_job U path) (rmdir_job-Flows path)
        (rmdir_job-Keeps U (idle_frame U) path)

  on_node-Flows :
      (n : ℕ) (st : Stat) (m : M (Node U.S × U.C.World) (Unit {0}))
      → IsPrompt m
      → Flows U n (on_node U st m)
  on_node-Flows n st m p (fs, a) h = p _

  move-Flows : (n : ℕ) (st : Stat) (from to : Text) → Flows U n (move U st from to)
  move-Flows n st from to =
      on_node-Flows n st (Node.rename_node U.S U.C U.limit from to)
        (rename_node-IsPrompt U.S PS U.C PC U.limit from to)

  when_found-Flows :
      (n : ℕ) (k : Stat → Job U ℤ) (r : ℤ × Stat)
      → ((st : Stat) → Flows U n (k st))
      → Flows U n (when_found U k r)
  when_found-Flows n k (pos zero, st) g t h = g st t h
  when_found-Flows n k (pos (suc i), st) g t h = refl
  when_found-Flows n k (negsuc i, st) g t h = refl

  unlink_job-Flows : (path : Text) (st : Stat) → Flows U 1 (unlink_job U path st)
  unfolding unlink_job
  unlink_job-Flows path st =
      let m = Node.remove_node U.S U.C U.limit path in
      drop_entry-Flows 1 path (on_node U st m)
        (on_node-Flows 1 st m (remove_node-IsPrompt U.S PS U.C PC U.limit path))
        (on_node-Keeps U (idle_frame U) st m)

  pub unlink_callback-Flows : (path : Text) → Flows U 2 (unlink_callback U path)
  unfolding unlink_callback
  unlink_callback-Flows path =
      >>=-Flows U 2 (stat_of U path) _ (stat_of-Flows U PC 2 path (omega arith))
        (stat_of-Keeps U (idle_frame U) path)
        λ r.
          when_found-Flows 2 (λ st. do_with_retry (pool U) (unlink_job U path st)) r
            λ st.
              retry-Flows U 1 (unlink_job U path st) (unlink_job-Flows path st)
                (unlink_job-Keeps U (idle_frame U) path st)

  move_then :
      (st : Stat) (from to : Text) (k : Job U ℤ) → Flows U 1 k → Flows U 1 (move U st from to >> k)
  move_then st from to k f =
      and_then 1 (move U st from to) k (move-Flows 1 st from to)
        (move-Keeps U (idle_frame U) st from to) f

  replace_target-Flows :
      (old_path new_path : Text) (flags : ℕ) (old_stat new_stat : Stat)
      → Flows U 1 (replace_target U old_path new_path flags old_stat new_stat)
  unfolding replace_target
  replace_target-Flows old_path new_path flags old_stat new_stat t h =
      let temp = temp_name U new_path in
      let gone = Node.remove_node U.S U.C U.limit new_path in
      let last = move_then old_stat old_path new_path (done U) (done-Flows 1) in
      elim (Bool-cases (no_replace U flags)) [
        | inl kept ↦ rw kept refl
        | inr free ↦ elim (Bool-cases (exchange U flags)) [
          | inl swap ↦
              rw (free, swap)
                (move_then new_stat new_path temp
                  (move U old_stat old_path new_path >> (move U new_stat temp old_path >> done U))
                  (move_then old_stat old_path new_path (move U new_stat temp old_path >> done U)
                    (move_then new_stat temp old_path (done U) (done-Flows 1)))
                  t h)
          | inr plain ↦
              rw (free, plain)
                (and_then 1 (on_node U new_stat gone) (move U old_stat old_path new_path >> done U)
                  (on_node-Flows 1 new_stat gone
                    (remove_node-IsPrompt U.S PS U.C PC U.limit new_path))
                  (on_node-Keeps U (idle_frame U) new_stat gone) last t h)
        ]
      ]

  with_target-Flows :
      (there : Stat → Job U ℤ) (missing : Job U ℤ) (r : ℤ × Stat)
      → ((st : Stat) → Flows U 1 (there st))
      → Flows U 1 missing
      → Flows U 1 (with_target U there missing r)
  with_target-Flows there missing (pos zero, st) g f t h = g st t h
  with_target-Flows there missing (pos (suc i), st) g f t h = f t h
  with_target-Flows there missing (negsuc i, st) g f t h = f t h

  rename_job-Flows :
      (old_path new_path : Text) (flags : ℕ) (st : Stat)
      → Flows U 1 (rename_job U old_path new_path flags st)
  unfolding rename_job
  rename_job-Flows old_path new_path flags st =
      >>=-Flows U 1 (stat_of U new_path) _ (stat_of-Flows U PC 1 new_path (omega arith))
        (stat_of-Keeps U (idle_frame U) new_path)
        λ target t h.
          with_target-Flows (replace_target U old_path new_path flags st)
            (move U st old_path new_path >> done U) target
            (replace_target-Flows old_path new_path flags st)
            (move_then st old_path new_path (done U) (done-Flows 1))
            (record t.0 { cache = Cache.remove new_path (Cache.remove old_path t.0.cache) }, tt) h

  -- The look-up of the target takes a second client.
  pub rename_callback-Flows :
      (old_path new_path : Text) (flags : ℕ) → Flows U 2 (rename_callback U old_path new_path flags)
  unfolding rename_callback
  rename_callback-Flows old_path new_path flags =
      >>=-Flows U 2 (stat_of U old_path) _ (stat_of-Flows U PC 2 old_path (omega arith))
        (stat_of-Keeps U (idle_frame U) old_path)
        λ r.
          when_found-Flows 2
            (λ st. do_with_retry (pool U) (rename_job U old_path new_path flags st)) r
            λ st.
              retry-Flows U 1 (rename_job U old_path new_path flags st)
                (rename_job-Flows old_path new_path flags st)
                (rename_job-Keeps U (idle_frame U) old_path new_path flags st)
