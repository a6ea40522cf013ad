-- ===== src/Tests/Server.antt =====
-- A cloud for the tests: what each path holds, always reachable.
use marc_fs.Base.{
  ℕ, refl, List, [], ◌∷◌, if◌then◌else◌, pos, Exc, mail, Result, ok, fail, M, Bytes, Text, codes,
}
use marc_fs.Base.Slices.{slice}
use marc_fs.CloudFile.{CloudFile, s_ifreg}
use marc_fs.Parts.{part_name}
use marc_fs.Cloud.{Client, IsLawful, Entry, absent, file, folder, is_folder, set_entry}

abbrev pub Held : Type 0
Held = Text → Entry

abbrev pub not_found : Exc
not_found = mail 404

abbrev pub upload_to : Text → Bytes → ℕ → ℕ → M Held (Unit {0})
upload_to p body start count w =
    if is_folder (w p)
    then (fail (mail 400), w)
    else (ok tt, set_entry p (file (slice start count body)) w)

abbrev pub served : Entry → Held → Bytes × (Result (Unit {0}) × Held)
served (file b) w = (b, (ok tt, w))
served _ w = ([], (fail not_found, w))

abbrev pub download_from : Text → Held → Bytes × (Result (Unit {0}) × Held)
download_from p w = served (w p) w

abbrev pub removed : Text → Entry → M Held (Unit {0})
removed p absent w = (fail not_found, w)
removed p _ w = (ok tt, set_entry p absent w)

abbrev pub remove_from : Text → M Held (Unit {0})
remove_from p w = removed p (w p) w

abbrev pub moved : Text → Text → Entry → M Held (Unit {0})
moved p q absent w = (fail not_found, w)
moved p q e w = (ok tt, set_entry q e (set_entry p absent w))

abbrev pub rename_in : Text → Text → M Held (Unit {0})
rename_in p q w = moved p q (w p) w

abbrev pub listed : Text → ℕ → CloudFile
listed name size = record {
  type = s_ifreg;
  kind = codes "file";
  home = [];
  name = name;
  hash = [];
  mtime = pos 3;
  size = size;
  virus_scan = codes "pass";
}

-- "b", and "a" in two parts of 20 and 5 bytes.
abbrev pub listing : List CloudFile
listing =
    listed (part_name (97 ∷ []) 0) 20 ∷ listed (part_name (97 ∷ []) 1) 5 ∷ listed (98 ∷ []) 3 ∷ []

-- The first request for a link fails, and the later ones are answered.
abbrev pub shared : Entry → M Held Text
shared absent w = (fail (mail 503), set_entry [] folder w)
shared _ w = (ok (codes "L"), w)

abbrev pub server : Client
server = record {
  World = Held;
  upload = upload_to;
  download = download_from;
  remove = remove_from;
  rename = rename_in;
  create = λ p w. (ok tt, set_entry p (file []) w);
  mkdir = λ p w. (ok tt, set_entry p folder w);
  ls = λ p w. (ok listing, w);
  share = λ p w. shared (w []) w;
  df = λ w. (ok (record { total = 100; used = 30 }), w);
}

abbrev pub server-IsLawful : IsLawful server
server-IsLawful = record {
  entry = λ w. w;
  IsOnline = λ w. Unit {0};
  upload-entry = λ p body start count w on h fits. rw h (refl, tt, refl);
  download-entry = λ p b w on h. rw h (refl, refl, tt, refl);
  remove-entry = λ p b w on h. rw h (refl, tt, refl);
  rename-entry = λ p q b w on h free way. rw h (refl, tt, refl);
  remove-absent = λ p w on h. rw h (tt, refl);
}
