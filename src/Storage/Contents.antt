-- ===== src/Storage/Contents.antt =====
-- The byte vector that a storage stands for.
use marc_fs.Base.{ℕ, ◌+◌, Bytes, length, if◌then◌else◌, leb}
use marc_fs.Base.Slices.{overwrite, resize}

-- A write at an offset. The gap that one beyond the end leaves is filled by zeros.
abbrev pub written : Bytes → ℕ → Bytes → Bytes
written buf offset bytes = overwrite offset buf (
    if leb (offset + length buf) (length bytes)
    then bytes
    else resize (offset + length buf) 0 bytes)
