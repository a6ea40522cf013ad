-- ===== src/Tests/Renames.antt =====
-- A rename of the file of the tests, whose stat is cached, to a path that the cloud does not hold.
use marc_fs.Base.{
  Bytes, ◌+◌, ◌-◌, ◌<◌, ◌≡◌, refl, subst, sym, inl, false, none, suc, [], ◌∷◌, arith, length, pos,
  negsuc, ok, Text, text_eq,
}
use marc_fs.Dict.{lookup}
use marc_fs.Node.Exact.{IsExact, IsClear, stored, stored-IsExact, cleared-IsClear}
use marc_fs.Node.Rename.{IsMoved, AreUnrelated}
use marc_fs.Node.Ways.{HasWays}
use marc_fs.Stat.{Stat, zero_stat}
use marc_fs.Hooks.{Fs}
use marc_fs.Hooks.Links.{stat_of}
use marc_fs.Hooks.Names.{rename_callback, temp_name}
use marc_fs.Hooks.Names.Exchanging.{rename_callback-exchanges}
use marc_fs.Hooks.Names.Renaming.{rename_callback-IsMoved, rename_callback-replaces}
use marc_fs.Tests.Server.{Held, server, server-IsLawful}
use marc_fs.Tests.Nodes.{a_path, old_body, cloud, cloud-IsExact}
use marc_fs.Tests.Callbacks.{setup}
use marc_fs.Tests.Requests.{a_stat, cached_state}

abbrev c_path : Text
c_path = 47 ∷ 99 ∷ []

apart : text_eq a_path c_path ≡ false
unfolding text_eq
apart = refl

c_path-IsClear : IsClear cloud c_path
unfolding marc_fs.Parts.is_compound marc_fs.Cloud.Entries.set_parts marc_fs.Parts.part_count text_eq
    marc_fs.Parts.part_name
c_path-IsClear = record { whole = refl; parts = λ i. refl }

unrelated : AreUnrelated a_path c_path apart server server-IsLawful
unfolding text_eq marc_fs.Parts.part_name
unrelated = record { old_part = λ j. refl; new_part = λ j. refl; apart_sym = refl }

abbrev one_left : Fs setup
one_left = record cached_state { idle = 1 }

abbrev looked : Fs setup
looked = (stat_of setup c_path (one_left, tt)).1.0

a_path-found : stat_of setup a_path (cached_state, tt) ≡ (ok (pos 0, a_stat), (cached_state, tt))
unfolding stat_of marc_fs.Hooks.Attributes.getattr_callback text_eq marc_fs.Paths.split_last
    marc_fs.Cache.get lookup
a_path-found = refl

c_path-missing : stat_of setup c_path (one_left, tt) ≡ (ok (negsuc 1, zero_stat), (looked, tt))
unfolding stat_of marc_fs.Hooks.Attributes.getattr_callback text_eq marc_fs.Paths.split_last
    marc_fs.Cache.get lookup marc_fs.Retry.do_with_retry marc_fs.Retry.retrying marc_fs.Retry.leased
    marc_fs.Hooks.Attributes.look_up marc_fs.Hooks.Attributes.scan_entries
    marc_fs.Compounds.handle_compounds marc_fs.Compounds.collapse marc_fs.Compounds.match_compound
    marc_fs.Compounds.before_suffix marc_fs.Parts.part_name marc_fs.Compounds.is_part_suffix
    marc_fs.Base.Decimal.to_string marc_fs.Cache.cache_node marc_fs.Cache.put
    marc_fs.CloudFile.get_mtime marc_fs.CloudFile.get_name marc_fs.CloudFile.get_size
    marc_fs.CloudFile.get_type marc_fs.CloudFile.set_name marc_fs.CloudFile.set_size
    marc_fs.Compounds.add_part marc_fs.Dict.erase marc_fs.Dict.insert
    marc_fs.Hooks.Attributes.scan_entry
c_path-missing = refl

looked-world : looked.world ≡ cloud
unfolding stat_of marc_fs.Hooks.Attributes.getattr_callback text_eq marc_fs.Paths.split_last
    marc_fs.Cache.get lookup marc_fs.Retry.do_with_retry marc_fs.Retry.retrying marc_fs.Retry.leased
    marc_fs.Hooks.Attributes.look_up marc_fs.Hooks.Attributes.scan_entries
    marc_fs.Compounds.handle_compounds marc_fs.Compounds.collapse marc_fs.Compounds.match_compound
    marc_fs.Compounds.before_suffix marc_fs.Parts.part_name marc_fs.Compounds.is_part_suffix
    marc_fs.Base.Decimal.to_string marc_fs.Cache.cache_node marc_fs.Cache.put
    marc_fs.CloudFile.get_mtime marc_fs.CloudFile.get_name marc_fs.CloudFile.get_size
    marc_fs.CloudFile.get_type marc_fs.CloudFile.set_name marc_fs.CloudFile.set_size
    marc_fs.Compounds.add_part marc_fs.Dict.erase marc_fs.Dict.insert
    marc_fs.Hooks.Attributes.scan_entry
looked-world = refl

rename_callback-IsMoved_example :
    let r = rename_callback setup a_path c_path 0 (cached_state, tt) in
    (r.0 ≡ ok (pos 0))
    × IsMoved a_path c_path apart server server-IsLawful 20 old_body (ok tt, r.1.0.world)
    × (lookup a_path r.1.0.cache ≡ none)
    × (lookup c_path r.1.0.cache ≡ none)
    × (r.1.0.idle ≡ suc looked.idle)
unfolding marc_fs.Paths.parent_of marc_fs.Paths.base_name marc_fs.Paths.split_last
rename_callback-IsMoved_example =
    rename_callback-IsMoved setup server-IsLawful a_path c_path apart old_body cached_state
      cached_state looked a_stat zero_stat 0 1 a_path-found (omega arith) c_path-missing refl
      unrelated tt
      (subst (λ (w : Held). IsExact 20 w a_path old_body) (sym looked-world) cloud-IsExact)
      (subst (λ (w : Held). IsClear w c_path) (sym looked-world) c_path-IsClear)
      (subst (λ (w : Held). HasWays w a_path c_path) (sym looked-world) (inl c_path-IsClear))

-- Beside it a file of three bytes, which a rename replaces.
abbrev b_path : Text
b_path = 47 ∷ 98 ∷ []

abbrev three : Bytes
three = 1 ∷ 2 ∷ 3 ∷ []

abbrev two_held : Held
two_held = stored 20 b_path three cloud

b_path-IsClear : IsClear cloud b_path
unfolding marc_fs.Parts.is_compound marc_fs.Cloud.Entries.set_parts marc_fs.Parts.part_count text_eq
    marc_fs.Parts.part_name
b_path-IsClear = record { whole = refl; parts = λ i. refl }

three-IsExact : IsExact 20 two_held b_path three
three-IsExact = stored-IsExact 20 b_path three cloud b_path-IsClear

still-IsExact : IsExact 20 two_held a_path old_body
unfolding marc_fs.Parts.is_compound marc_fs.Cloud.Entries.set_parts marc_fs.Parts.part_count text_eq
    marc_fs.Parts.part_name
still-IsExact = record { whole = cloud-IsExact.whole; parts = cloud-IsExact.parts }

apart_b : text_eq a_path b_path ≡ false
unfolding text_eq
apart_b = refl

unrelated_b : AreUnrelated a_path b_path apart_b server server-IsLawful
unfolding text_eq marc_fs.Parts.part_name
unrelated_b = record { old_part = λ j. refl; new_part = λ j. refl; apart_sym = refl }

abbrev b_stat : Stat
b_stat = record zero_stat { size = 3 }

abbrev both_cached : Fs setup
both_cached = record cached_state {
  world = two_held;
  cache =
      (a_path, record { stbuf = a_stat; cached_since = 0 })
      ∷ ((b_path, record { stbuf = b_stat; cached_since = 0 }) ∷ []);
}

abbrev both_lent : Fs setup
both_lent = record both_cached { idle = 1 }

a_path-cached : stat_of setup a_path (both_cached, tt) ≡ (ok (pos 0, a_stat), (both_cached, tt))
unfolding stat_of marc_fs.Hooks.Attributes.getattr_callback text_eq marc_fs.Paths.split_last
    marc_fs.Cache.get lookup
a_path-cached = refl

b_path-cached : stat_of setup b_path (both_lent, tt) ≡ (ok (pos 0, b_stat), (both_lent, tt))
unfolding stat_of marc_fs.Hooks.Attributes.getattr_callback text_eq marc_fs.Paths.split_last
    marc_fs.Cache.get lookup
b_path-cached = refl

rename_callback-replaces_example :
    let r = rename_callback setup a_path b_path 0 (both_cached, tt) in
    (r.0 ≡ ok (pos 0))
    × IsMoved a_path b_path apart_b server server-IsLawful 20 old_body (ok tt, r.1.0.world)
    × (lookup a_path r.1.0.cache ≡ none)
    × (lookup b_path r.1.0.cache ≡ none)
    × (r.1.0.idle ≡ 2)
unfolding marc_fs.Paths.parent_of marc_fs.Paths.base_name marc_fs.Paths.split_last
rename_callback-replaces_example =
    rename_callback-replaces setup server-IsLawful a_path b_path apart_b old_body three both_cached
      both_cached both_lent a_stat b_stat 0 refl refl a_path-cached (omega arith) b_path-cached refl
      refl unrelated_b tt still-IsExact three-IsExact
      (inl (cleared-IsClear 20 b_path three two_held three-IsExact))

abbrev temp_path : Text
temp_path = temp_name setup b_path

temp_path-IsClear : IsClear two_held temp_path
unfolding marc_fs.Parts.is_compound marc_fs.Cloud.Entries.set_parts marc_fs.Parts.part_count text_eq
    marc_fs.Parts.part_name
temp_path-IsClear = record { whole = refl; parts = λ i. refl }

apart_temp : text_eq b_path temp_path ≡ false
unfolding text_eq
apart_temp = refl

temp_apart : text_eq temp_path a_path ≡ false
unfolding text_eq
temp_apart = refl

unrelated_temp : AreUnrelated b_path temp_path apart_temp server server-IsLawful
unfolding text_eq marc_fs.Parts.part_name
unrelated_temp = record { old_part = λ j. refl; new_part = λ j. refl; apart_sym = refl }

temp_unrelated : AreUnrelated temp_path a_path temp_apart server server-IsLawful
unfolding text_eq marc_fs.Parts.part_name
temp_unrelated = record { old_part = λ j. refl; new_part = λ j. refl; apart_sym = refl }

rename_callback-exchanges_example :
    let r = rename_callback setup a_path b_path 2 (both_cached, tt) in
    (r.0 ≡ ok (pos 0))
    × IsExact 20 r.1.0.world b_path old_body
    × IsExact 20 r.1.0.world a_path three
    × IsClear r.1.0.world temp_path
    × Unit {0}
    × (lookup a_path r.1.0.cache ≡ none)
    × (lookup b_path r.1.0.cache ≡ none)
    × (r.1.0.idle ≡ 2)
unfolding marc_fs.Paths.parent_of marc_fs.Paths.base_name marc_fs.Paths.split_last
rename_callback-exchanges_example =
    rename_callback-exchanges setup server-IsLawful a_path b_path both_cached both_cached both_lent
      a_stat b_stat old_body three 2 refl refl a_path-cached (omega arith) b_path-cached refl refl
      unrelated_b unrelated_temp temp_unrelated refl refl refl tt still-IsExact three-IsExact
      temp_path-IsClear
