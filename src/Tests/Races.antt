-- ===== src/Tests/Races.antt =====
-- Threads 0 and 1 over a cache with one entry that has expired.
use marc_fs.Base.{◌+◌, ◌≡◌, refl, true, false, none, List, [], ◌∷◌, arith, text_eq}
use marc_fs.Dict.{lookup}
use marc_fs.Stat.{zero_stat}
use marc_fs.Cache.{cache_node, cache_ttl}
use marc_fs.Cache.Threads.{Element, Shared, outside, look, invalidate, put, Reach}
use marc_fs.Cache.Races.{get_races, put_lost}
use marc_fs.Cache.Alone.{gets, waits, puts, serve_all, expect_all, seen, Request}
use marc_fs.Cache.Alone.Refines.{serve_all-expected}
use marc_fs.Cache.Alone.Ageing.{promise_all, expect_all-promised}
use marc_fs.Tests.Nodes.{a_path}

abbrev old_entry : Element
old_entry = record { id = 0; node = record { stbuf = zero_stat; cached_since = 0 } }

abbrev late : Shared
late = record {
  elements = (a_path, old_entry) ∷ [];
  next_id = 1;
  now = cache_ttl + 1;
  threads = λ i. outside;
  broken = false;
}

get_races_example : (t : Shared) × Reach late t × (t.broken ≡ true)
unfolding lookup text_eq
get_races_example = get_races a_path old_entry 0 1 late (omega arith) (refl, refl) refl refl

put_lost_example :
    let t =
      invalidate 0 a_path 0 (put a_path (cache_node late.now zero_stat) (look 0 a_path late).1) in
    Reach late t × (lookup a_path t.elements ≡ none) × (t.broken ≡ false)
unfolding lookup text_eq
put_lost_example = put_lost a_path old_entry 0 zero_stat late refl (refl, refl)

abbrev asked : List Request
asked = gets a_path ∷ puts a_path zero_stat ∷ waits 7 ∷ gets a_path ∷ []

serve_all-expected_example :
    ((serve_all 0 asked late).0 ≡ (expect_all asked (seen late)).0)
    × (seen (serve_all 0 asked late).1 ≡ (expect_all asked (seen late)).1)
    × ((serve_all 0 asked late).1.threads 0 ≡ outside)
    × ((serve_all 0 asked late).1.broken ≡ false)
serve_all-expected_example = serve_all-expected 0 asked late refl

expect_all-promised_example :
    (expect_all asked (seen late)).0
    ≡ (promise_all asked (late.now, λ path. lookup path ((a_path, old_entry.node) ∷ []))).0
expect_all-promised_example = expect_all-promised asked late.now ((a_path, old_entry.node) ∷ [])
