-- ===== src/Hooks.antt =====
-- fuse_hooks.h and fuse_hooks.cpp: the state that the callbacks share, and what they are made of.
-- A call's clocks stand still while it runs. The pool counts its idle clients, which share one
-- session.
pub mod Attributes
pub mod Links
pub mod Files
pub mod Names
pub mod Listed
pub mod Lookup
pub mod Frames
pub mod Faults
pub mod Web
use marc_fs.Base.{ℕ, Option, ◌==◌, if◌then◌else◌, ℤ, ok, M}
use marc_fs.Storage.{Storage}
use marc_fs.Cloud.{Client}
use marc_fs.Node.{Node}
use marc_fs.Cache.{Cache}
use marc_fs.Stat.{Stat, Context}
use marc_fs.Compounds.{Compounds}
use marc_fs.Retry.{Pool}

-- What the program is linked with and started with. `fresh_storage` is a storage object that was just
-- made, and `order` the order in which a hash map is walked.
pub record Setup : Type 1 where
  pub S : Storage
  pub C : Client
  pub limit : ℕ
  pub context : Context
  pub fresh_storage : S.State
  pub order : Compounds → Compounds

module _ (U : Setup) where
  -- The object that a `fuse_file_info` refers to.
  pub data Handle : Type 0 where
    file_node : Node U.S → Handle
    dir_node : Handle

  pub record Fs : Type 0 where
    pub world : U.C.World
    pub cache : Cache
    pub idle : ℕ
    pub steady : ℕ
    pub time : ℤ
    pub handles : ℕ → Option Handle
    pub next_handle : ℕ

  -- The state of a job with the variables that it captures.
  abbrev pub With : Type 0 → Type 0
  With A = Fs × A

  abbrev pub pool : {A : Type 0} → Pool (With A)
  pool = record { idle = λ t. t.0.idle; set_idle = λ n t. (record t.0 { idle = n }, t.1) }

  abbrev pub on_client : {A B : Type 0} → M U.C.World B → M (With A) B
  on_client m (fs, a) = let (r, w) = m fs.world in (r, (record fs { world = w }, a))

  abbrev pub on_cache : {A : Type 0} → (Cache → Cache) → M (With A) (Unit {0})
  on_cache f (fs, a) = (ok tt, (record fs { cache = f fs.cache }, a))

  abbrev pub set_handle : ℕ → Option Handle → Fs → Fs
  set_handle h v fs = record fs { handles = λ k. if k == h then v else fs.handles k }
