-- ===== src/Tests/Callbacks.antt =====
-- Callbacks over the test server.
use marc_fs.Base.{
  ℕ, zero, suc, ◌≡◌, refl, ◌↔◌, true, false, none, some, List, ◌∷◌, ◌++◌, map, arith, is_nil, ℤ,
  pos, mail, undefined, blocked, ok, fail, M, Text, codes, text_eq, [],
}
use marc_fs.Storage.Instances.{memory_storage}
use marc_fs.Storage.File
use marc_fs.Storage.File.{FileStorage, Disk}
use marc_fs.Storage.File.{FileStorage, contents}
use marc_fs.Storage.Contents.{written}
use marc_fs.Storage.File.Laws.{write_overflow}
use marc_fs.CloudFile.{CloudFile}
use marc_fs.Cache
use marc_fs.Stat.{zero_stat}
use marc_fs.Parts.{part_name, suffix}
use marc_fs.Compounds.{match_compound, handle_compounds, Compounds}
use marc_fs.Compounds.Totals.{handle_compounds-Mem}
use marc_fs.Retry.{Pool, leased, do_with_retry}
use marc_fs.Retry.Laws.{Failures, start, more, do_with_retry_answer}
use marc_fs.Base.Decimal.{all_digits}
use marc_fs.Compounds.{is_line, collapse}
use mathlib.Core.List.{Mem}
use mathlib.Core.List.Perm
use marc_fs.Hooks.{Setup, Fs, With, pool}
use marc_fs.Hooks.Attributes.{getattr_callback, readdir_callback}
use marc_fs.Hooks.Links.{gather}
use marc_fs.Hooks.Lookup.{getattr_callback_again}
use marc_fs.Hooks.Faults.{gather_twice}
use marc_fs.Paths.{none_of}
use marc_fs.Tests.Server.{server, listing}
use marc_fs.Tests.Nodes.{a_path, cloud}

abbrev pub setup : Setup
setup = record {
  S = memory_storage;
  C = server;
  limit = 20;
  context = record { uid = 1000; gid = 1000 };
  fresh_storage = record { bytes = [] };
  order = λ m. m;
}

abbrev pub state : ℕ → Fs setup
state clients = record {
  world = cloud;
  cache = [];
  idle = clients;
  steady = 0;
  time = pos 0;
  handles = λ k. none;
  next_handle = 0;
}

-- A job that fails on the server's side while its counter lasts, and a pool of `idle` clients.
abbrev Counters : Type 0
Counters = ℕ × ℕ

abbrev clients : Pool Counters
clients = record { idle = λ t. t.0; set_idle = λ n t. (n, t.1) }

abbrev flaky : M Counters ℤ
flaky (n, zero) = (ok (pos 7), (n, 0))
flaky (n, suc k) = (fail (mail 503), (n, k))

once : Failures clients flaky (2, 1) 1 (2, 0)
unfolding leased
once = more 503 start refl (omega arith)

do_with_retry_answer_example : do_with_retry clients flaky (2, 1) ≡ (ok (pos 7), (2, 0))
unfolding leased
do_with_retry_answer_example = do_with_retry_answer clients 1 (pos 7) once (omega arith) refl

abbrev refused : M Counters ℤ
refused (n, k) = (fail (mail 403), (n, k))

getattr_callback_again_example :
    let t = (getattr_callback setup a_path none (state 2, zero_stat)).1 in
    ((getattr_callback setup a_path none (t.0, zero_stat)).0 ≡ ok (pos 0))
    × ((getattr_callback setup a_path none (t.0, zero_stat)).1.1 ≡ t.1)
    × ((getattr_callback setup a_path none (t.0, zero_stat)).1.0.world ≡ t.0.world)
unfolding text_eq marc_fs.Paths.split_last getattr_callback Cache.get marc_fs.Dict.lookup
    do_with_retry marc_fs.Retry.retrying leased marc_fs.Hooks.Attributes.look_up
    marc_fs.Hooks.Attributes.scan_entries handle_compounds marc_fs.Compounds.collapse match_compound
    marc_fs.Compounds.before_suffix part_name marc_fs.Compounds.is_part_suffix
    marc_fs.Base.Decimal.to_string Cache.cache_node Cache.put marc_fs.CloudFile.get_mtime
    marc_fs.CloudFile.get_name marc_fs.CloudFile.get_size marc_fs.CloudFile.get_type
    marc_fs.CloudFile.set_name marc_fs.CloudFile.set_size marc_fs.Compounds.add_part
    marc_fs.Dict.erase marc_fs.Dict.insert marc_fs.Hooks.Attributes.scan_entry
getattr_callback_again_example =
    getattr_callback_again setup a_path [] (97 ∷ []) (state 2, zero_stat) refl refl refl refl
      zero_stat

gather_twice_example :
    (gather setup a_path 5 (state 2, tt)).0 ≡ ok (codes "/a: /a: https://cloud.mail.ru/public/L\n")
unfolding marc_fs.Parts.is_compound marc_fs.Cloud.Entries.set_parts marc_fs.Parts.part_count text_eq
    part_name
gather_twice_example =
    gather_twice setup a_path (codes "L") 503 5 (state 2) tt (omega arith) refl refl (omega arith)
      refl

abbrev open_stream : FileStorage
open_stream = record {
  filename = codes "x";
  is_open = true;
  disk = record { cache_dir = []; counter = 0; writable = true; files = λ f. none };
}

write_overflow_example :
    ((File.write (1 ∷ []) 0x7fff_ffff open_stream).0 ≡ fail undefined)
    × (contents (File.write (1 ∷ []) 0x7fff_ffff open_stream).1
        ≡ written (1 ∷ []) 0x7fff_ffff (contents open_stream))
write_overflow_example =
    write_overflow (1 ∷ []) 0x7fff_ffff open_stream refl (omega arith) (omega arith) (omega arith)

handle_compounds-Mem_example :
    (cf : CloudFile) × Mem cf (handle_compounds (λ m. m) listing)
    × (cf.name ≡ 97 ∷ [])
    × (cf.size ≡ 25)
unfolding match_compound marc_fs.Compounds.before_suffix part_name marc_fs.Compounds.is_part_suffix
    marc_fs.Base.Decimal.to_string text_eq
handle_compounds-Mem_example =
    handle_compounds-Mem (λ m. m) listing (97 ∷ []) (λ m. Perm.refl m) refl (omega arith)
