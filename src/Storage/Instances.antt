-- ===== src/Storage/Instances.antt =====
-- The two implementations that `MarcFileNode` chooses from, and that both are lawful.
use marc_fs.Base.{◌≡◌, refl, ap, [], arith}
use marc_fs.Storage.{Storage, IsLawful}
use marc_fs.Storage.Memory
use marc_fs.Storage.Memory.{MemoryStorage}
use marc_fs.Storage.Memory.Laws as MemoryLaws
use marc_fs.Storage.File
use marc_fs.Storage.File.{FileStorage, contents}
use marc_fs.Storage.File.Laws as FileLaws

abbrev pub memory_storage : Storage
memory_storage = record {
  State = MemoryStorage;
  open_storage = Memory.open_storage;
  empty = Memory.empty;
  size = Memory.size;
  read = Memory.read;
  write = Memory.write;
  append = Memory.append;
  read_fully = Memory.read_fully;
  clear = Memory.clear;
  truncate = Memory.truncate;
  bytes = λ m. m.bytes;
}

abbrev pub file_storage : Storage
file_storage = record {
  State = FileStorage;
  open_storage = File.open_storage;
  empty = File.empty;
  size = File.size;
  read = File.read;
  write = File.write;
  append = File.append;
  read_fully = File.read_fully;
  clear = File.clear;
  truncate = File.truncate;
  bytes = File.bytes;
}

abbrev pub memory_laws : IsLawful memory_storage
memory_laws = record {
  view = λ m. m.bytes;
  IsFresh = λ m. m.bytes ≡ [];
  IsReady = λ m. Unit {0};
  open-IsReady = MemoryLaws.open-fresh;
  empty-view = λ m _. MemoryLaws.empty-is_nil m;
  size-view = λ m _. MemoryLaws.size-length m;
  read-view = λ n offset m _ h k e. MemoryLaws.read-slice n offset m h (omega arith) e;
  write-view = λ buf offset m _ p h.
      let e = MemoryLaws.write-written buf offset m p (omega arith) (omega arith) in
      (ap (λ r. r.0) e, tt, ap (λ r. r.1.bytes) e);
  append-view = λ buf m _. (tt, MemoryLaws.append-bytes buf m);
  read_fully-view = λ m _ h. MemoryLaws.read_fully-bytes m h;
  bytes-view = λ m _. refl;
  clear-IsFresh = λ m _. MemoryLaws.clear-bytes m;
  truncate-view = λ n m _. MemoryLaws.truncate-resize n m;
}

abbrev pub file_laws : IsLawful file_storage
file_laws = record {
  view = contents;
  IsFresh = FileLaws.IsFresh;
  IsReady = FileLaws.IsReady;
  open-IsReady = FileLaws.open-IsReady;
  empty-view = FileLaws.empty-is_nil;
  size-view = FileLaws.size-length;
  read-view = λ n offset s r h _ _. FileLaws.read-slice n offset s r h;
  write-view = FileLaws.write-written;
  append-view = FileLaws.append-contents;
  read_fully-view = λ s r _. FileLaws.read_fully-contents s r;
  bytes-view = FileLaws.bytes-contents;
  clear-IsFresh = FileLaws.clear-IsFresh;
  truncate-view = FileLaws.truncate-resize;
}
