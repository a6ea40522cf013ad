-- ===== src/Stat/Laws.antt =====
-- What every stat that the file system fills has in common.
use marc_fs.Base.{refl, ℕ, ◌+◌, ◌*◌, ◌≤◌, ◌<◌, ◌≡◌, ◌⊎◌, arith, ℤ}
use marc_fs.CloudFile.{CloudFile}
use marc_fs.Storage.{Storage}
use marc_fs.Node.{Node, get_size}
use marc_fs.Stat.{
  Stat, Context, file_mode, dir_mode, fill_stat, empty_stat, fill_dir_stat, fill_file_stat,
}

-- The entry is the user's; it is a file with one link or a folder with two; and its blocks of 512
-- bytes hold its size, with at most one block to spare.
pub record IsSound (ctx : Context) (st : Stat) : Type 0 where
  pub owner : st.uid ≡ ctx.uid
  pub group : st.gid ≡ ctx.gid
  pub shape : ((st.mode ≡ file_mode) × (st.nlink ≡ 1)) ⊎ ((st.mode ≡ dir_mode) × (st.nlink ≡ 2))
  pub blksize : st.blksize ≡ 4096
  pub enough : st.size < st.blocks * 512
  pub tight : st.blocks * 512 ≤ st.size + 512

-- Whatever a listed entry is, its stat has the caller as owner, is that of a private file with one
-- link or of a private folder with two, and counts the 512-byte blocks that hold the size, with at
-- most one to spare.
pub fill_stat-IsSound :
    (ctx : Context) (cf : CloudFile) (st : Stat) → IsSound ctx (fill_stat ctx cf st)
unfolding fill_stat
fill_stat-IsSound ctx cf st = ground arith

pub empty_stat-IsSound :
    (ctx : Context) (type : ℕ) (now : ℤ) (st : Stat) → IsSound ctx (empty_stat ctx type now st)
unfolding empty_stat
empty_stat-IsSound ctx type now st = ground arith

pub fill_dir_stat-IsSound : (ctx : Context) (st : Stat) → IsSound ctx (fill_dir_stat ctx st)
unfolding fill_dir_stat
fill_dir_stat-IsSound ctx st = ground arith

-- The stat of an open file has the caller as owner, is that of a private file with one link or of
-- a private folder with two, and counts the 512-byte blocks that hold the size, with at most one
-- to spare.
pub fill_file_stat-IsSound :
    (S : Storage) (ctx : Context) (n : Node S) (st : Stat) → IsSound ctx (fill_file_stat S ctx n st)
unfolding fill_file_stat
fill_file_stat-IsSound S ctx n st = ground arith

-- The size in the stat of an open file is that of its node.
pub fill_file_stat-size :
    (S : Storage) (ctx : Context) (n : Node S) (st : Stat)
    → (fill_file_stat S ctx n st).size ≡ get_size S n
unfolding fill_file_stat
fill_file_stat-size S ctx n st = refl
