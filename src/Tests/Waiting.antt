-- ===== src/Tests/Waiting.antt =====
-- Neither the test server nor a storage in memory waits for ever, and a run over them does not.
use marc_fs.Base.{◌≡◌, refl, [], false, arith, Text}
use marc_fs.Storage.Instances.{memory_storage}
use marc_fs.Storage.Memory.Prompt as Memory
use marc_fs.Cloud.{absent, file, folder, Entry, is_folder}
use marc_fs.Retry.Prompt.{waits, if-waits}
use marc_fs.Node.Prompt.{IsPromptClient, IsPromptStorage}
use marc_fs.Fuse.{serve_all}
use marc_fs.Fuse.Waiting.{serve_all-waits}
use marc_fs.Tests.Server.{server, Held, served, removed, moved, shared}
use marc_fs.Tests.Callbacks.{setup}
use marc_fs.Tests.Sessions.{start, two_names}

memory-IsPrompt : IsPromptStorage memory_storage
memory-IsPrompt = record {
  open_storage = Memory.open_storage-IsPrompt;
  read = Memory.read-IsPrompt;
  write = Memory.write-IsPrompt;
  truncate = Memory.truncate-IsPrompt;
}

served-waits : (e : Entry) (w : Held) → waits (served e w).1.0 ≡ false
served-waits absent w = refl
served-waits (file b) w = refl
served-waits folder w = refl

removed-waits : (p : Text) (e : Entry) (w : Held) → waits (removed p e w).0 ≡ false
removed-waits p absent w = refl
removed-waits p (file b) w = refl
removed-waits p folder w = refl

moved-waits : (p q : Text) (e : Entry) (w : Held) → waits (moved p q e w).0 ≡ false
moved-waits p q absent w = refl
moved-waits p q (file b) w = refl
moved-waits p q folder w = refl

shared-waits : (e : Entry) (w : Held) → waits (shared e w).0 ≡ false
shared-waits absent w = refl
shared-waits (file b) w = refl
shared-waits folder w = refl

server-IsPrompt : IsPromptClient server
server-IsPrompt = record {
  upload = λ p b i n w. if-waits (is_folder (w p)) _ _ refl refl;
  download = λ p w. served-waits (w p) w;
  remove = λ p w. removed-waits p (w p) w;
  rename = λ p q w. moved-waits p q (w p) w;
  create = λ p w. refl;
  mkdir = λ p w. refl;
  ls = λ p w. refl;
  share = λ p w. shared-waits (w []) w;
  df = λ w. refl;
}

serve_all-waits_example : waits (serve_all setup two_names start).0 ≡ false
serve_all-waits_example =
    serve_all-waits setup memory-IsPrompt server-IsPrompt two_names start (omega arith)
