-- ===== src/Hooks/Frames/Names.antt =====
-- What the callbacks that make, remove and rename entries keep.
use marc_fs.Base.{ℕ, zero, suc, inl, inr, Bool-cases, ℤ, pos, negsuc, M, ◌>>=◌, ◌>>◌, Text, is_nil}
use marc_fs.Cache
use marc_fs.Stat.{Stat}
use marc_fs.Node
use marc_fs.Node.{Node}
use marc_fs.Hooks.{Setup, on_client, on_cache}
use marc_fs.Hooks.Links.{stat_of}
use marc_fs.Hooks.Names.{
  Job, on_node, done, mkdir_callback, mknod_callback, rmdir_job, rmdir_callback, unlink_job,
  unlink_callback, rename_job, rename_callback, replace_target, when_found, with_target, move,
  no_replace, exchange, temp_name,
}
use marc_fs.Hooks.Frames.{Frame, Keeps, >>=-Keeps, on_client-Keeps, on_cache-Keeps, stat_of-Keeps}

module _ (U : Setup) (F : Frame U) where
  pub then_done : {B : Type 0} (m : Job U B) → Keeps U F m → Keeps U F (m >>= λ _. done U)
  then_done m h = >>=-Keeps U F m (λ _. done U) h (λ _ t. F.same t.0)

  pub on_node-Keeps :
      (st : Stat) (m : M (Node U.S × U.C.World) (Unit {0})) → Keeps U F (on_node U st m)
  on_node-Keeps st m (fs, a) = F.of_world _ fs

  pub mkdir_callback-Keeps : (path : Text) → Keeps U F (mkdir_callback U path)
  unfolding mkdir_callback
  mkdir_callback-Keeps path =
      F.of_retry _ (then_done (on_client U (U.C.mkdir path)) (on_client-Keeps U F (U.C.mkdir path)))

  pub mknod_callback-Keeps : (path : Text) → Keeps U F (mknod_callback U path)
  unfolding mknod_callback
  mknod_callback-Keeps path =
      F.of_retry _
        (then_done (on_client U (U.C.create path)) (on_client-Keeps U F (U.C.create path)))

  pub drop_entry-Keeps :
      (path : Text) (m : Job U (Unit {0}))
      → Keeps U F m
      → Keeps U F (m >> (on_cache U (Cache.remove path) >> done U))
  drop_entry-Keeps path m h =
      >>=-Keeps U F m (λ _. on_cache U (Cache.remove path) >> done U) h
        (λ _. then_done (on_cache U (Cache.remove path)) (on_cache-Keeps U F (Cache.remove path)))

  pub rmdir_job-Keeps : (path : Text) → Keeps U F (rmdir_job U path)
  unfolding rmdir_job
  rmdir_job-Keeps path =
      >>=-Keeps U F (on_client U (U.C.ls path)) _ (on_client-Keeps U F (U.C.ls path)) λ contents t.
        elim (Bool-cases (is_nil contents)) [
          | inl bare ↦ rw bare (
              drop_entry-Keeps path (on_client U (U.C.remove path))
                (on_client-Keeps U F (U.C.remove path)) t)
          | inr full ↦ rw full (F.same t.0)
        ]

  pub rmdir_callback-Keeps : (path : Text) → Keeps U F (rmdir_callback U path)
  unfolding rmdir_callback
  rmdir_callback-Keeps path = F.of_retry (rmdir_job U path) (rmdir_job-Keeps path)

  when_found-Keeps :
      (k : Stat → Job U ℤ) (r : ℤ × Stat)
      → ((st : Stat) → Keeps U F (k st))
      → Keeps U F (when_found U k r)
  when_found-Keeps k (pos zero, st) h t = h st t
  when_found-Keeps k (pos (suc n), st) h t = F.same t.0
  when_found-Keeps k (negsuc n, st) h t = F.same t.0

  pub unlink_job-Keeps : (path : Text) (st : Stat) → Keeps U F (unlink_job U path st)
  unfolding unlink_job
  unlink_job-Keeps path st =
      drop_entry-Keeps path (on_node U st (Node.remove_node U.S U.C U.limit path))
        (on_node-Keeps st (Node.remove_node U.S U.C U.limit path))

  pub unlink_callback-Keeps : (path : Text) → Keeps U F (unlink_callback U path)
  unfolding unlink_callback
  unlink_callback-Keeps path =
      >>=-Keeps U F (stat_of U path) _ (stat_of-Keeps U F path)
        λ r. when_found-Keeps _ r λ st. F.of_retry (unlink_job U path st) (unlink_job-Keeps path st)

  pub and_then :
      (m : Job U (Unit {0})) (k : Job U ℤ) → Keeps U F m → Keeps U F k → Keeps U F (m >> k)
  and_then m k h g = >>=-Keeps U F m (λ _. k) h (λ _. g)

  pub move-Keeps : (st : Stat) (from to : Text) → Keeps U F (move U st from to)
  move-Keeps st from to = on_node-Keeps st (Node.rename_node U.S U.C U.limit from to)

  pub last_move : (st : Stat) (from to : Text) → Keeps U F (move U st from to >> done U)
  last_move st from to = then_done (move U st from to) (move-Keeps st from to)

  pub replace_target-Keeps :
      (old_path new_path : Text) (flags : ℕ) (old_stat new_stat : Stat)
      → Keeps U F (replace_target U old_path new_path flags old_stat new_stat)
  unfolding replace_target
  replace_target-Keeps old_path new_path flags old_stat new_stat t =
      let temp = temp_name U new_path in
      elim (Bool-cases (no_replace U flags)) [
        | inl kept ↦ rw kept (F.same t.0)
        | inr free ↦ elim (Bool-cases (exchange U flags)) [
          | inl swap ↦
              rw (free, swap)
                (and_then (move U new_stat new_path temp)
                  (move U old_stat old_path new_path >> (move U new_stat temp old_path >> done U))
                  (move-Keeps new_stat new_path temp)
                  (and_then (move U old_stat old_path new_path)
                    (move U new_stat temp old_path >> done U)
                    (move-Keeps old_stat old_path new_path) (last_move new_stat temp old_path))
                  t)
          | inr plain ↦
              rw (free, plain)
                (and_then (on_node U new_stat (Node.remove_node U.S U.C U.limit new_path))
                  (move U old_stat old_path new_path >> done U)
                  (on_node-Keeps new_stat (Node.remove_node U.S U.C U.limit new_path))
                  (last_move old_stat old_path new_path) t)
        ]
      ]

  with_target-Keeps :
      (there : Stat → Job U ℤ) (missing : Job U ℤ) (r : ℤ × Stat)
      → ((st : Stat) → Keeps U F (there st))
      → Keeps U F missing
      → Keeps U F (with_target U there missing r)
  with_target-Keeps there missing (pos zero, st) h k t = h st t
  with_target-Keeps there missing (pos (suc n), st) h k t = k t
  with_target-Keeps there missing (negsuc n, st) h k t = k t

  pub rename_job-Keeps :
      (old_path new_path : Text) (flags : ℕ) (st : Stat)
      → Keeps U F (rename_job U old_path new_path flags st)
  unfolding rename_job
  rename_job-Keeps old_path new_path flags st =
      >>=-Keeps U F (stat_of U new_path) _ (stat_of-Keeps U F new_path) λ target.
        let work =
          with_target U (replace_target U old_path new_path flags st)
            (move U st old_path new_path >> done U) target in
        and_then (on_cache U (Cache.remove old_path)) (on_cache U (Cache.remove new_path) >> work)
          (on_cache-Keeps U F (Cache.remove old_path))
          (and_then (on_cache U (Cache.remove new_path)) work
            (on_cache-Keeps U F (Cache.remove new_path))
            (with_target-Keeps (replace_target U old_path new_path flags st)
              (move U st old_path new_path >> done U) target
              (replace_target-Keeps old_path new_path flags st) (last_move st old_path new_path)))

  pub rename_callback-Keeps :
      (old_path new_path : Text) (flags : ℕ) → Keeps U F (rename_callback U old_path new_path flags)
  unfolding rename_callback
  rename_callback-Keeps old_path new_path flags =
      >>=-Keeps U F (stat_of U old_path) _ (stat_of-Keeps U F old_path) λ r.
        when_found-Keeps _ r λ st.
          F.of_retry (rename_job U old_path new_path flags st)
            (rename_job-Keeps old_path new_path flags st)
