-- ===== src/Tests/Storages.antt =====
-- Calls of both storages, storages that share a directory, and a file in one piece that is truncated.
use marc_fs.Base.{
  ℕ, sym, ◌∙◌, refl, true, false, none, List, [], ◌∷◌, arith, replicate, Bytes, codes,
}
use marc_fs.Storage.File.{FileStorage}
use marc_fs.Storage.Calls.{
  Call, writes, reads, appends, truncates, sizes, empties, reads_fully, reopens,
}
use marc_fs.Storage.File.Effects.{open-place}
use marc_fs.Storage.Shared.{Shared, Method, opens, clears, calls, unopened, run, invoke_on, invoke}
use marc_fs.Storage.Shared.Apart.{run-others, IsSame, AllOthers, place-some}
use marc_fs.Node.Exact.{stored}
use marc_fs.Hooks.{Fs}
use marc_fs.Tests.Nodes.{a_path, nothing}
use marc_fs.Tests.Callbacks.{setup, state}

abbrev asked : List Call
asked =
    writes (1 ∷ 2 ∷ []) 3
    ∷ reads 4 1
    ∷ appends (9 ∷ [])
    ∷ truncates 2
    ∷ sizes
    ∷ empties
    ∷ reads_fully
    ∷ reopens
    ∷ []

abbrev shut_file : FileStorage
shut_file = record {
  filename = [];
  is_open = false;
  disk = record { cache_dir = codes "/tmp"; counter = 0; writable = true; files = λ f. none };
}

abbrev five : Bytes
five = replicate 5 65

abbrev small_state : Fs setup
small_state = record (state 2) { world = stored 20 a_path five nothing }

abbrev shared : Shared
shared = record { disk = shut_file.disk; streams = λ i. unopened }

abbrev first_calls : List (ℕ × Method)
first_calls = (1, opens) ∷ (0, opens) ∷ []

abbrev later_calls : List (ℕ × Method)
later_calls = (1, calls (writes (1 ∷ 2 ∷ []) 3)) ∷ (2, opens) ∷ (1, clears) ∷ []

run-others_example : IsSame 0 (run first_calls shared) (run later_calls (run first_calls shared))
unfolding run invoke_on invoke AllOthers
run-others_example =
    run-others 0 first_calls later_calls shared (λ i. refl) (omega arith)
      (λ e. place-some _ _ (sym (open-place _) ∙ e))
      (
        λ e. absurd (omega (arith, e)),
        (λ e. absurd (omega (arith, e)), (λ e. absurd (omega (arith, e)), tt)),
      )
