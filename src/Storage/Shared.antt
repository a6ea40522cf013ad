-- ===== src/Storage/Shared.antt =====
-- file_storage.cpp, several storages over one cache directory: `cacheDir` and `FileStorage::counter` are
-- the same for all of them. A method runs on its own stream and on the directory as it is then.
pub mod Apart
use marc_fs.Base.{ℕ, List, [], ◌∷◌, ◌==◌, if◌then◌else◌, false, Bool, Text}
use marc_fs.Storage.File.{FileStorage, Disk}
use marc_fs.Storage.File
use marc_fs.Storage.Instances.{file_storage}
use marc_fs.Storage.Calls.{Call, Answer, done, unseen, perform}

-- The fields of one object.
pub record Stream : Type 0 where
  pub filename : Text
  pub is_open : Bool

pub record Shared : Type 0 where
  pub disk : Disk
  pub streams : ℕ → Stream

-- `FileStorage()`
abbrev pub unopened : Stream
unopened = record { filename = []; is_open = false }

abbrev pub object : ℕ → Shared → FileStorage
object i sh = record {
  filename = (sh.streams i).filename;
  is_open = (sh.streams i).is_open;
  disk = sh.disk;
}

abbrev pub put_object : ℕ → FileStorage → Shared → Shared
put_object i s sh = record {
  disk = s.disk;
  streams =
      λ j. if j == i then record { filename = s.filename; is_open = s.is_open } else sh.streams j;
}

-- A method of an object, open or not.
pub data Method : Type 0 where
  opens : Method
  clears : Method
  calls : Call → Method

unfoldable pub invoke : Method → FileStorage → Answer × FileStorage
invoke opens s = let (r, t) = File.open_storage s in (done r, t)
invoke clears s = (unseen, File.clear s)
invoke (calls c) s = perform file_storage c s

unfoldable pub invoke_on : ℕ × Method → Shared → Answer × Shared
unfolding invoke
invoke_on (i, m) sh = let (x, s) = invoke m (object i sh) in (x, put_object i s sh)

unfoldable pub run : List (ℕ × Method) → Shared → Shared
unfolding invoke_on
run [] sh = sh
run (u ∷ us) sh = run us (invoke_on u sh).1
