-- ===== src/Fuse/Sessions/Run.antt =====
-- Whole sessions.
use marc_fs.Base.{List, [], ◌∷◌, Bytes}
use marc_fs.Storage
use marc_fs.Cloud
use marc_fs.Fuse.Sessions.{Action, writes, reads, flushes, edited, pauses}

-- What the cloud holds after an action.
saved : Action → Bytes → Bytes → Bytes
saved (writes buf offset) old body = old
saved (reads n offset) old body = old
saved flushes old body = body
saved (pauses d now) old body = old

pub saved_all : List Action → Bytes → Bytes → Bytes
unfolding saved
saved_all [] old body = old
saved_all (a ∷ acts) old body = saved_all acts (saved a old body) (edited a body)
