-- ===== src/Hooks/Names.antt =====
-- The callbacks that make, remove and rename entries.
pub mod Unlinking
pub mod Renaming
pub mod Exchanging
use marc_fs.Base.{
  ℕ, zero, suc, ◌/◌, ◌%◌, Bool, ◌++◌, ◌==◌, if◌then◌else◌, is_nil, ℤ, pos, negsuc, M, pure, ◌>>=◌,
  ◌>>◌, Text, codes,
}
use marc_fs.Node
use marc_fs.Node.{Node}
use marc_fs.Cache
use marc_fs.Stat.{Stat}
use marc_fs.Retry.{do_with_retry}
use marc_fs.Retry.Errno
use marc_fs.Hooks.{Setup, With, pool, on_client, on_cache}
use marc_fs.Hooks.Links.{stat_of}

module _ (U : Setup) where
  abbrev pub Job : Type 0 → Type 0
  Job A = M (With U (Unit {0})) A

  abbrev pub done : Job ℤ
  done = pure (pos 0)

  unfoldable pub mkdir_callback : Text → Job ℤ
  mkdir_callback path = do_with_retry (pool U) (on_client U (U.C.mkdir path) >> done)

  unfoldable pub mknod_callback : Text → Job ℤ
  mknod_callback path = do_with_retry (pool U) (on_client U (U.C.create path) >> done)

  unfoldable pub rmdir_job : Text → Job ℤ
  rmdir_job path = on_client U (U.C.ls path) >>= λ contents.
      if is_nil contents
      then on_client U (U.C.remove path) >> (on_cache U (Cache.remove path) >> done)
      else pure Errno.enotempty

  unfoldable pub rmdir_callback : Text → Job ℤ
  rmdir_callback path = do_with_retry (pool U) (rmdir_job path)

  -- `MarcFileNode(stbuf)`
  abbrev pub node_at : Stat → Node U.S
  node_at st = Node.node_of_stat U.S U.C U.limit U.fresh_storage st.size st.mtime

  -- A call on a temporary node.
  abbrev pub on_node : Stat → M (Node U.S × U.C.World) (Unit {0}) → Job (Unit {0})
  on_node st m (fs, a) =
      let (r, s) = m (node_at st, fs.world) in (r, (record fs { world = s.1 }, a))

  unfoldable pub unlink_job : Text → Stat → Job ℤ
  unlink_job path st =
      on_node st (Node.remove_node U.S U.C U.limit path) >> (on_cache U (Cache.remove path) >> done)

  -- An error of the first look-up is returned.
  abbrev pub when_found : (Stat → Job ℤ) → ℤ × Stat → Job ℤ
  when_found k (pos zero, st) = k st
  when_found k (pos (suc n), st) = pure (pos (suc n))
  when_found k (negsuc n, st) = pure (negsuc n)

  unfoldable pub unlink_callback : Text → Job ℤ
  unlink_callback path =
      stat_of U path >>= when_found (λ st. do_with_retry (pool U) (unlink_job path st))

  -- `flags & RENAME_NOREPLACE` and `flags & RENAME_EXCHANGE`
  abbrev pub no_replace : ℕ → Bool
  no_replace flags = flags % 2 == 1

  abbrev pub exchange : ℕ → Bool
  exchange flags = (flags / 2) % 2 == 1

  abbrev pub move : Stat → Text → Text → Job (Unit {0})
  move st from to = on_node st (Node.rename_node U.S U.C U.limit from to)

  abbrev pub temp_name : Text → Text
  temp_name path = path ++ codes ".marcfs-temp"

  unfoldable pub replace_target : Text → Text → ℕ → Stat → Stat → Job ℤ
  replace_target old_path new_path flags old_stat new_stat =
      if no_replace flags
      then pure Errno.eexist
      else if exchange flags
      then move new_stat new_path (temp_name new_path)
        >> (move old_stat old_path new_path
            >> (move new_stat (temp_name new_path) old_path >> done))
      else on_node new_stat (Node.remove_node U.S U.C U.limit new_path)
        >> (move old_stat old_path new_path >> done)

  -- The target exists exactly if its look-up answers 0.
  abbrev pub with_target : (Stat → Job ℤ) → Job ℤ → ℤ × Stat → Job ℤ
  with_target there missing (pos zero, st) = there st
  with_target there missing (pos (suc n), st) = missing
  with_target there missing (negsuc n, st) = missing

  unfoldable pub rename_job : Text → Text → ℕ → Stat → Job ℤ
  rename_job old_path new_path flags old_stat = stat_of U new_path >>= λ target.
      on_cache U (Cache.remove old_path)
      >> (on_cache U (Cache.remove new_path)
          >> with_target (replace_target old_path new_path flags old_stat)
              (move old_stat old_path new_path >> done) target)

  unfoldable pub rename_callback : Text → Text → ℕ → Job ℤ
  rename_callback old_path new_path flags =
      stat_of U old_path
      >>= when_found (λ st. do_with_retry (pool U) (rename_job old_path new_path flags st))
