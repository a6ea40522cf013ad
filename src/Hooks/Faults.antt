-- ===== src/Hooks/Faults.antt =====
-- Where the callbacks do not do what they mean to.
use marc_fs.Base.{
  ℕ, suc, ◌-◌, ◌≤◌, ◌<◌, ◌≡◌, false, Option, none, some, [], ◌∷◌, ◌++◌, arith, pos, Exc, mail,
  undefined, blocked, ok, fail, Text, codes, text_eq,
}
use marc_fs.Cache
use marc_fs.Parts.{is_compound}
use marc_fs.Retry.{leased, retrying, do_with_retry}
use marc_fs.Hooks.{Setup, Fs, pool}
use marc_fs.Hooks.Links.{share_one, share_job, gather, public_link, stat_of}
use marc_fs.Hooks.Attributes.{getattr_callback, with_handle, from_path, from_cache}
use marc_fs.Hooks.Names.{rename_job}
use marc_fs.Paths.{split_last, is_slash}
use marc_fs.Stat.{Stat}
use marc_fs.Hooks.Files.{open_job, open_callback}

module _ (U : Setup) where
  -- With an idle client, opening a path whose stat is not in the cache, or has expired there,
  -- follows a null pointer.
  pub open_callback_missing :
      (path : Text) (fs : Fs U) (fh : Option ℕ)
      → 0 < fs.idle
      → (Cache.get fs.steady path fs.cache).0 ≡ none
      → (open_callback U path (fs, fh)).0 ≡ fail undefined
  unfolding open_callback do_with_retry retrying leased open_job
  open_callback_missing path fs fh some_idle missing = ground arith

  abbrev line : Text → Text
  line url = public_link ++ (47 ∷ (url ++ (10 ∷ [])))

  abbrev label : Text → Text
  label path = path ++ codes ": "

  share_job_ok :
      (path url : Text) (size : ℕ) (fs : Fs U) (link : Text)
      → is_compound U.limit size ≡ false
      → (U.C.share path fs.world).0 ≡ ok url
      → share_job U path size (fs, link) ≡ (
        ok (pos 0),
        (record fs { world = (U.C.share path fs.world).1 }, (link ++ label path) ++ line url),
      )
  unfolding share_job share_one
  share_job_ok path url size fs link small e = rw small (rw e)

  share_job_fail :
      (path : Text) (x : Exc) (size : ℕ) (fs : Fs U) (link : Text)
      → is_compound U.limit size ≡ false
      → (U.C.share path fs.world).0 ≡ fail x
      → share_job U path size (fs, link)
        ≡ (fail x, (record fs { world = (U.C.share path fs.world).1 }, link ++ label path))
  unfolding share_job share_one
  share_job_fail path x size fs link small e = rw small (rw e)

  -- With an idle client, the content of a link file to a file within the limit, whose first
  -- request for a link fails on the server's side and whose second one succeeds, names the file
  -- twice.
  pub gather_twice :
      (path url : Text) (code size : ℕ) (fs : Fs U) (a : Unit {0})
      → 0 < fs.idle
      → is_compound U.limit size ≡ false
      → (U.C.share path fs.world).0 ≡ fail (mail code)
      → 500 ≤ code
      → (U.C.share path (U.C.share path fs.world).1).0 ≡ ok url
      → (gather U path size (fs, a)).0 ≡ ok ((label path ++ label path) ++ line url)
  unfolding gather do_with_retry retrying leased
  gather_twice path url code size fs a some_idle small first server second =
      let lent : Fs U = record fs { idle = fs.idle - 1 } in
      let w = (U.C.share path fs.world).1 in
      let lent' : Fs U = record fs { idle = suc (fs.idle - 1) - 1; world = w } in
      ground (
        arith,
        share_job_fail path (mail code) size lent [] small first,
        share_job_ok path url size lent' (label path) small second,
      )

  stat_of_blocked :
      (path dir name : Text) (fs : Fs U) (c : Cache.Cache)
      → fs.idle ≡ 0
      → text_eq path (codes "/") ≡ false
      → split_last is_slash path ≡ some (dir, name)
      → Cache.get fs.steady path fs.cache ≡ (none, c)
      → (stat_of U {A = Unit {0}} path (fs, tt)).0 ≡ fail blocked
  unfolding stat_of getattr_callback with_handle from_path from_cache do_with_retry retrying leased
  stat_of_blocked path dir name fs c none_idle not_root split miss =
      rw not_root (rw split (rw miss (rw none_idle)))

  -- A rename that takes the last client of the pool, to a path that is not the root and not in the
  -- cache, waits for another client, with which it would look the target up: nothing ends this
  -- wait while nobody else gives a client back.
  pub rename_job_blocked :
      (old_path path dir name : Text) (flags : ℕ) (st : Stat) (fs : Fs U) (c : Cache.Cache)
      → fs.idle ≡ 1
      → text_eq path (codes "/") ≡ false
      → split_last is_slash path ≡ some (dir, name)
      → Cache.get fs.steady path fs.cache ≡ (none, c)
      → (do_with_retry (pool U) (rename_job U old_path path flags st) (fs, tt)).0 ≡ fail blocked
  unfolding do_with_retry retrying leased rename_job
  rename_job_blocked old_path path dir name flags st fs c one not_root split miss =
      let lent : Fs U = record fs { idle = fs.idle - 1 } in
      ground (arith, stat_of_blocked path dir name lent c (omega arith) not_root split miss)
