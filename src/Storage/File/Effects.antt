-- ===== src/Storage/File/Effects.antt =====
-- What a method of a storage in a file can change: its own stream, its own file, and, as `open` does, the
-- counter of the directory.
use marc_fs.Base.{
  ℕ, ◌+◌, ◌<◌, ◌≡◌, refl, ◌⊎◌, inl, inr, false, ◌∷◌, ◌++◌, arith, Bytes, Text, text_eq, u64_mod,
}
use marc_fs.Base.Decimal.{to_string}
use marc_fs.Storage.File.{FileStorage, open_storage, read, write, append, clear, truncate}

-- The file of this number.
abbrev pub place : Text → ℕ → Text
place dir n = dir ++ (47 ∷ to_string n)

pub record Effect (s t : FileStorage) : Type 0 where
  pub same_dir : t.disk.cache_dir ≡ s.disk.cache_dir
  pub named :
      ((t.filename ≡ s.filename) × (t.disk.counter ≡ s.disk.counter))
      ⊎ ((t.filename ≡ place s.disk.cache_dir s.disk.counter)
          × (t.disk.counter ≡ s.disk.counter + 1))
  pub others :
      (f : Text)
      → text_eq f s.filename ≡ false
      → text_eq f t.filename ≡ false
      → t.disk.files f ≡ s.disk.files f

pub same-Effect : (s : FileStorage) → Effect s s
same-Effect s = record { same_dir = refl; named = inl (refl, refl); others = λ f a b. refl }

pub open-Effect : (s : FileStorage) → s.disk.counter + 1 < u64_mod → Effect s (open_storage s).1
unfolding open_storage
open-Effect s h = record {
  same_dir = ground arith;
  named = inr (ground arith, ground arith);
  others = λ f a b. ground arith;
}

pub write-Effect : (buf : Bytes) (offset : ℕ) (s : FileStorage) → Effect s (write buf offset s).1
unfolding write
write-Effect buf offset s = record {
  same_dir = ground arith;
  named = inl (ground arith, ground arith);
  others = λ f a b. ground arith;
}

pub append-Effect : (buf : Bytes) (s : FileStorage) → Effect s (append buf s)
unfolding append
append-Effect buf s = record {
  same_dir = ground arith;
  named = inl (ground arith, ground arith);
  others = λ f a b. ground arith;
}

pub clear-Effect : (s : FileStorage) → Effect s (clear s)
unfolding clear
clear-Effect s = record { same_dir = refl; named = inl (refl, refl); others = λ f a b. rw a refl }

pub truncate-Effect : (n : ℕ) (s : FileStorage) → Effect s (truncate n s).1
unfolding truncate
truncate-Effect n s = record {
  same_dir = ground arith;
  named = inl (ground arith, ground arith);
  others = λ f a b. ground arith;
}

-- `clear`, and `open` again.
pub reopen-Effect :
    (s : FileStorage) → s.disk.counter + 1 < u64_mod → Effect s (open_storage (clear s)).1
unfolding open_storage clear
reopen-Effect s h = record {
  same_dir = ground arith;
  named = inr (ground arith, ground arith);
  others = λ f a b. ground arith;
}

pub read-Effect : (n offset : ℕ) (s : FileStorage) → Effect s (read n offset s).1
unfolding read
read-Effect n offset s = record {
  same_dir = ground arith;
  named = inl (ground arith, ground arith);
  others = λ f a b. ground arith;
}

pub open-place :
    (s : FileStorage) → (open_storage s).1.filename ≡ place s.disk.cache_dir s.disk.counter
unfolding open_storage
open-place s = ground arith
