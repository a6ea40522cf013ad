-- ===== src/Storage/Memory/Prompt.antt =====
-- memory_storage.cpp never waits.
use marc_fs.Base.{ℕ, refl, arith, Bytes}
use marc_fs.Retry.Prompt.{IsPrompt}
use marc_fs.Storage.Memory.{open_storage, read, write, truncate}

pub open_storage-IsPrompt : IsPrompt open_storage
unfolding open_storage
open_storage-IsPrompt m = refl

pub read-IsPrompt : (n offset : ℕ) → IsPrompt (read n offset)
unfolding read
read-IsPrompt n offset m = ground arith

pub write-IsPrompt : (buf : Bytes) (offset : ℕ) → IsPrompt (write buf offset)
unfolding write
write-IsPrompt buf offset m = ground arith

pub truncate-IsPrompt : (n : ℕ) → IsPrompt (truncate n)
unfolding truncate
truncate-IsPrompt n m = refl
