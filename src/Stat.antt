-- ===== src/Stat.antt =====
-- `struct stat` as the file system fills it: mru_cache.cpp, marc_node.cpp, marc_dir_node.cpp and
-- `MarcFileNode::fillStat`. The user's ids are those of the FUSE context.
pub mod Laws
use marc_fs.Base.{ℕ, ◌+◌, ◌/◌, ◌==◌, if◌then◌else◌, ℤ, pos}
use marc_fs.CloudFile.{CloudFile, s_ifreg, s_ifdir, get_type, get_size, get_mtime}
use marc_fs.Storage.{Storage}
use marc_fs.Node.{Node}
use marc_fs.Node

pub record Stat : Type 0 where
  pub uid : ℕ
  pub gid : ℕ
  pub mode : ℕ
  pub nlink : ℕ
  pub size : ℕ
  pub blksize : ℕ
  pub blocks : ℕ
  pub mtime : ℤ

-- `struct stat stbuf = {}`
abbrev pub zero_stat : Stat
zero_stat = record {
  uid = 0;
  gid = 0;
  mode = 0;
  nlink = 0;
  size = 0;
  blksize = 0;
  blocks = 0;
  mtime = pos 0;
}

pub record Context : Type 0 where
  pub uid : ℕ
  pub gid : ℕ

-- `S_IFREG | 0600` and `S_IFDIR | 0700`
abbrev pub file_mode : ℕ
file_mode = s_ifreg + 0o600

abbrev pub dir_mode : ℕ
dir_mode = s_ifdir + 0o700

unfoldable pub fill_stat : Context → CloudFile → Stat → Stat
unfolding get_size get_mtime get_type
fill_stat ctx cf st = record st {
  uid = ctx.uid;
  gid = ctx.gid;
  mode = if get_type cf == s_ifreg then file_mode else dir_mode;
  nlink = if get_type cf == s_ifreg then 1 else 2;
  size = get_size cf;
  blksize = 4096;
  blocks = get_size cf / 512 + 1;
  mtime = get_mtime cf;
}

pub empty_stat : Context → ℕ → ℤ → Stat → Stat
empty_stat ctx type now st = record st {
  uid = ctx.uid;
  gid = ctx.gid;
  mode = if type == s_ifreg then file_mode else dir_mode;
  nlink = if type == s_ifreg then 1 else 2;
  size = 0;
  blksize = 4096;
  blocks = 1;
  mtime = now;
}

-- `MarcNode::fillStat`
unfoldable fill_node_stat : Context → Stat → Stat
fill_node_stat ctx st = record st { uid = ctx.uid; gid = ctx.gid; blksize = 4096 }

-- `MarcDirNode::fillStat`
pub fill_dir_stat : Context → Stat → Stat
unfolding fill_node_stat
fill_dir_stat ctx st = record (fill_node_stat ctx st) {
  mode = dir_mode;
  nlink = 2;
  size = 0;
  blocks = 1;
  mtime = pos 0;
}

-- `MarcFileNode::fillStat`, which does not set the modification time.
pub fill_file_stat : (S : Storage) → Context → Node S → Stat → Stat
unfolding fill_node_stat
fill_file_stat S ctx n st = record (fill_node_stat ctx st) {
  mode = file_mode;
  nlink = 1;
  size = Node.get_size S n;
  blocks = Node.get_size S n / 512 + 1;
}
