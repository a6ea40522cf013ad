-- ===== src/Tests/Sessions.antt =====
-- Requests to the test server: a session on a file of 25 bytes in two parts.
use marc_fs.Base.{
  fail, undefined, ◌≡◌, ◌≢◌, refl, false, true, none, List, [], ◌∷◌, arith, replicate, ltb, pos,
  if◌then◌else◌, ◌==◌, text_eq,
}
use marc_fs.Dict.{lookup}
use marc_fs.Cache.{CacheNode}
use marc_fs.Stat.{zero_stat}
use marc_fs.Hooks.{Fs}
use marc_fs.Fuse.{elapse, Request, open_file, read, rename, serve_all}
use marc_fs.Fuse.Handles.{serve_all-idle}
use marc_fs.Fuse.Sessions.{Action, writes, reads, flushes, pauses}
use marc_fs.Fuse.Expiry.{open_expired}
use marc_fs.Tests.Nodes.{a_path}
use marc_fs.Tests.Callbacks.{setup, state}

abbrev known_stat : CacheNode
known_stat = record { stbuf = record zero_stat { size = 25 }; cached_since = 0 }

abbrev pub start : Fs setup
start = record (state 2) { cache = (a_path, known_stat) ∷ [] }

abbrev acts : List Action
acts = writes (1 ∷ 2 ∷ []) 3 ∷ pauses 1000 (pos 9) ∷ flushes ∷ reads 4 2 ∷ writes (3 ∷ []) 30 ∷ []

abbrev pub two_names : List Request
two_names = rename a_path (47 ∷ 99 ∷ []) 0 ∷ open_file a_path ∷ []

serve_all-idle_example : (serve_all setup two_names start).1.idle ≡ 2
serve_all-idle_example = serve_all-idle setup two_names start

open_expired_example :
    (serve_all setup (elapse 60000000001 (pos 60) ∷ open_file a_path ∷ read 0 1 0 ∷ []) start).0
    ≡ fail undefined
unfolding lookup text_eq
open_expired_example =
    open_expired setup a_path 60000000001 (pos 60) known_stat (read 0 1 0 ∷ []) start (omega arith)
      refl (omega arith)
