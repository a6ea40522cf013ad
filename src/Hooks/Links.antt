-- ===== src/Hooks/Links.antt =====
-- `handleLinks`: a file whose name ends in the link suffix is filled with the public link of the file
-- that the rest of the name names.
use marc_fs.Base.{
  ℕ, not, ◌&&◌, Option, none, some, [], ◌∷◌, ◌++◌, if◌then◌else◌, is_nil, ℤ, pos, ok, M, pure,
  bind_result, ◌>>=◌, ◌>>◌, Text, codes,
}
use marc_fs.Node
use marc_fs.Node.{Node}
use marc_fs.Stat.{Stat, zero_stat}
use marc_fs.Parts.{part_name, is_compound, part_count, for_parts}
use marc_fs.Compounds.{strip, is_line}
use marc_fs.Retry.{do_with_retry}
use marc_fs.Hooks.{Setup, Fs, With, pool, on_client}
use marc_fs.Hooks.Attributes.{getattr_callback}

abbrev pub link_suffix : Text
link_suffix = codes ".marcfs-link"

-- `SCLD_PUBLICLINK_ENDPOINT`
abbrev pub public_link : Text
public_link = codes "https://cloud.mail.ru/public"

-- What stands before the last link suffix.
unfoldable pub before_link : Text → Option Text
before_link [] = none
before_link (c ∷ cs) = elim (before_link cs) [
  | some p ↦ some (c ∷ p)
  | none ↦ elim (strip link_suffix (c ∷ cs)) [ some _ ↦ some [] | none ↦ none ]
]

-- `SHARE_LINK_REGEX`, `(.+)(\.marcfs-link)(.*)`, with what its first group matches. The group takes as
-- much as it can.
unfoldable pub match_link : Text → Option Text
match_link path = elim (before_link path) [
  | none ↦ none
  | some p ↦ if not (is_nil p) && is_line path then some p else none
]

module _ (U : Setup) where
  abbrev pub say : Text → M (With U Text) (Unit {0})
  say t (fs, link) = (ok tt, (fs, link ++ t))

  -- The name is appended before the call that may throw.
  unfoldable pub share_one : Text → M (With U Text) (Unit {0})
  share_one path =
      say (path ++ codes ": ")
      >> (on_client U (U.C.share path) >>= λ url. say (public_link ++ (47 ∷ (url ++ (10 ∷ [])))))

  unfoldable pub share_job : Text → ℕ → M (With U Text) ℤ
  share_job path size =
      if is_compound U.limit size
      then for_parts (λ idx. share_one (part_name path idx)) (part_count U.limit size) 0
        >> pure (pos 0)
      else share_one path >> pure (pos 0)

  -- A callback's stat of a path, from an empty one.
  unfoldable pub stat_of : {A : Type 0} → Text → M (With U A) (ℤ × Stat)
  stat_of path (fs, a) =
      let (r, s) = getattr_callback U path none (fs, zero_stat) in
      bind_result (λ code t. (ok (code, s.1), t)) (r, (s.0, a))

  -- What the retried job leaves in `link`, whatever it answers.
  unfoldable pub gather : Text → ℕ → M (With U (Unit {0})) Text
  gather path size (fs, a) =
      let (r, s) = do_with_retry (pool U) (share_job path size) (fs, []) in
      bind_result (λ code t. (ok s.1, t)) (r, (s.0, a))

  unfoldable pub fill_link :
      ((A : Type 0) → M (Node U.S) A → M (Fs U) A) → Text → M (With U (Unit {0})) (Unit {0})
  fill_link on link (fs, a) =
      let (r, fs') =
        (on (Unit {0}) (Node.truncate_node U.S 0)
            >> (on ℤ (Node.write_node U.S fs.time link 0) >>= λ _. pure tt))
          fs in
      (r, (fs', a))

  unfoldable pub linked :
      ((A : Type 0) → M (Node U.S) A → M (Fs U) A) → Option Text → M (With U (Unit {0})) (Unit {0})
  unfolding fill_link
  linked on none s = (ok tt, s)
  linked on (some orig) s =
      (stat_of orig >>= λ info. gather orig info.1.size >>= λ link. fill_link on link) s

  -- `on` runs a method of the link file's own node.
  unfoldable pub handle_links :
      Text → ((A : Type 0) → M (Node U.S) A → M (Fs U) A) → M (With U (Unit {0})) (Unit {0})
  unfolding linked
  handle_links path on = linked on (match_link path)
