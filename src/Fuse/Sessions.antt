-- ===== src/Fuse/Sessions.antt =====
-- A session on one file: what is asked of it between `open` and `release`, and the byte vector that it
-- is meant to work on.
pub mod Moves
pub mod Flushing
pub mod Opening
pub mod Run
use marc_fs.Base.{
  ℕ, ◌+◌, ◌*◌, ◌<◌, ◌≡◌, ◌≢◌, false, some, List, [], ◌∷◌, ltb, ℤ, pos, length, Bytes, Text,
}
use marc_fs.Base.Slices.{slice}
use marc_fs.Storage
use marc_fs.Storage.Contents.{written}
use marc_fs.Cloud
use marc_fs.Dict.{lookup}
use marc_fs.Cache.{CacheNode, cache_ttl}
use marc_fs.Node.{Node}
use marc_fs.Node.Exact.{IsExact}
use marc_fs.Node.Flush.{CanStore}
use marc_fs.Hooks.{Setup, file_node, Fs}
use marc_fs.Fuse.{Request, Reply, write, read, flush, elapse, code, bytes}

pub data Action : Type 0 where
  writes : Bytes → ℕ → Action
  reads : ℕ → ℕ → Action
  flushes : Action
  pauses : ℕ → ℤ → Action

-- The vector after an action.
unfoldable pub edited : Action → Bytes → Bytes
edited (writes buf offset) body = written buf offset body
edited (reads n offset) body = body
edited flushes body = body
edited (pauses d now) body = body

unfoldable pub edited_all : List Action → Bytes → Bytes
unfolding edited
edited_all [] body = body
edited_all (a ∷ acts) body = edited_all acts (edited a body)

-- How much time the actions take, in nanoseconds.
unfoldable pub spent : Action → ℕ
spent (pauses d now) = d
spent _ = 0

unfoldable pub spent_all : List Action → ℕ
unfolding spent
spent_all [] = 0
spent_all (a ∷ acts) = spent a + spent_all acts

-- Counts are within an `int`, what is flushed can be stored, and no read begins just at the end of the
-- file, where a storage in memory touches an element that is not there.
unfoldable pub Allowed : Action → Bytes → Type 0
Allowed (writes buf offset) body = (0 < length buf) × (offset + length buf < 0x8000_0000)
Allowed (reads n offset) body =
    (n < 0x8000_0000) × (offset + n < 0x8000_0000_0000_0000) × (offset ≢ length body)
Allowed flushes body = CanStore body
Allowed (pauses d now) body = Unit {0}

unfoldable pub AllAllowed : List Action → Bytes → Type 0
unfolding Allowed edited
AllAllowed [] body = Unit {0}
AllAllowed (a ∷ acts) body = Allowed a body × AllAllowed acts (edited a body)

-- The request that an action is, on the object at `h`.
pub request : ℕ → Text → Action → Request
request h path (writes buf offset) = write h buf offset
request h path (reads n offset) = read h n offset
request h path flushes = flush path h
request h path (pauses d now) = elapse d now

pub requests : ℕ → Text → List Action → List Request
unfolding request
requests h path [] = []
requests h path (a ∷ acts) = request h path a ∷ requests h path acts

module _ (U : Setup) where
  -- What the vector answers.
  pub reply : Action → Bytes → Reply U
  reply (writes buf offset) body = code (pos (length buf))
  reply (reads n offset) body = bytes (pos (length (slice offset n body))) (slice offset n body)
  reply flushes body = code (pos 0)
  reply (pauses d now) body = code (pos 0)

  pub replies : List Action → Bytes → List (Reply U)
  unfolding reply edited
  replies [] body = []
  replies (a ∷ acts) body = reply a body ∷ replies acts (edited a body)

module _ (U : Setup) (LS : Storage.IsLawful U.S) (L : Cloud.IsLawful U.C) (path : Text) where
  open L use {entry, IsOnline}
  open LS use {view, IsReady}

  -- The cloud holds exactly `body` under the path; the connection works, a client is idle, and the
  -- stat cache knows the size for `left` more nanoseconds.
  pub record Rests (left : ℕ) (body : Bytes) (fs : Fs U) : Type 0 where
    pub online : IsOnline fs.world
    pub exact : IsExact U.limit (entry fs.world) path body
    pub some_idle : 0 < fs.idle
    pub cached : CacheNode
    pub known : lookup path fs.cache ≡ some cached
    pub young : ltb (cached.cached_since + cache_ttl) (fs.steady + left) ≡ false
    pub size : cached.stbuf.size ≡ length body

  -- At `h` is an open file with content `body`, that differs from `old` only if it is marked.
  pub record Edits (h upcoming : ℕ) (old body : Bytes) (fs : Fs U) : Type 0 where
    pub node : Node U.S
    pub there_is : fs.handles h ≡ some (file_node node)
    pub ready : IsReady node.content
    pub content : view node.content ≡ body
    pub old_size : node.old_size ≡ length old
    pub clean : node.dirty ≡ false → body ≡ old
    pub next : fs.next_handle ≡ upcoming
