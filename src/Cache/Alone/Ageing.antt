-- ===== src/Cache/Alone/Ageing.antt =====
-- What the cache promises: a map from paths to stats, each with the time at which it was noted, that
-- keeps everything and answers what is young enough.
use marc_fs.Base.{
  ℕ, ◌+◌, ◌≤◌, ◌≡◌, refl, sym, ap, ◌∙◌, Option, none, some, List, [], ◌∷◌, arith, if◌then◌else◌,
  Text, text_eq, text_eq_iff,
}
use marc_fs.Dict.{lookup}
use marc_fs.Stat.{Stat}
use marc_fs.Cache.{CacheNode, Cache, cache_node, get}
use marc_fs.Cache.Laws.{fresh_at, restat, get-get, get-put, get-remove, get-update}
use marc_fs.Cache.Alone.{Request, gets, puts, removes, refreshes, waits, expected, expect_all}

abbrev pub Noted : Type 0
Noted = Text → Option CacheNode

pub assign : Text → Option CacheNode → Noted → Noted
assign path o m other = if text_eq path other then o else m other

-- Nothing is ever erased for its age.
pub promised : Request → ℕ × Noted → Option CacheNode × (ℕ × Noted)
unfolding assign
promised (gets path) (now, m) = (fresh_at now (m path), (now, m))
promised (puts path st) (now, m) = (none, (now, assign path (some (cache_node now st)) m))
promised (removes path) (now, m) = (none, (now, assign path none m))
promised (refreshes path fill) (now, m) = (none, (now, assign path (restat fill (m path)) m))
promised (waits n) (now, m) = (none, (now + n, m))

pub promise_all : List Request → ℕ × Noted → List (Option CacheNode) × (ℕ × Noted)
unfolding promised
promise_all [] s = ([], s)
promise_all (r ∷ rs) s = let (x, t) = promised r s in let (xs, u) = promise_all rs t in (x ∷ xs, u)

-- From now on the cache answers what is noted.
abbrev Answers : ℕ × Cache → ℕ × Noted → Type 0
Answers (now, c) (time, m) =
    (time ≡ now)
    × ((path : Text) (later : ℕ) → now ≤ later → (get later path c).0 ≡ fresh_at later (m path))

restat-fresh_at :
    (now : ℕ) (fill : Stat → Stat) (o : Option CacheNode)
    → restat fill (fresh_at now o) ≡ fresh_at now (restat fill o)
restat-fresh_at now fill none = refl
restat-fresh_at now fill (some node) = ground arith

expected-Answers :
    (r : Request) (s : ℕ × Cache) (t : ℕ × Noted)
    → Answers s t
    → ((expected r s).0 ≡ (promised r t).0) × Answers (expected r s).1 (promised r t).1
unfolding expected promised assign
expected-Answers (gets path) (now, c) (time, m) (same, h) = (
  h path now (omega arith) ∙ ap (λ k. fresh_at k (m path)) (sym same),
  (same, λ other later le. (get-get now later path other c le).1 ∙ h other later le),
)
expected-Answers (puts path st) (now, c) (time, m) (same, h) = (
  refl,
  (
    same,
    λ other later le. ground (arith, same, get-put later now path other st c, h other later le),
  ),
)
expected-Answers (removes path) (now, c) (time, m) (same, h) = (
  refl,
  (same, λ other later le. ground (arith, get-remove later path other c, h other later le)),
)
expected-Answers (refreshes path fill) (now, c) (time, m) (same, h) = (
  refl,
  (
    same,
    λ other later le. ground (
      arith,
      text_eq_iff path other,
      get-update later path other fill c,
      restat-fresh_at later fill (m path),
      h other later le,
      h path later le,
    ),
  ),
)
expected-Answers (waits n) (now, c) (time, m) (same, h) =
    (refl, (ap (λ k. k + n) same, λ path later le. h path later (omega arith)))

run-Answers :
    (rs : List Request) (s : ℕ × Cache) (t : ℕ × Noted)
    → Answers s t
    → (expect_all rs s).0 ≡ (promise_all rs t).0
unfolding expect_all promise_all
run-Answers [] s t h = refl
run-Answers (r ∷ rs) s t h =
    let (x, g) = expected-Answers r s t h in
    ap (λ a. a ∷ (expect_all rs (expected r s).1).0) x
    ∙ ap (λ a. (promised r t).0 ∷ a) (run-Answers rs (expected r s).1 (promised r t).1 g)

-- Whatever is asked of the cache, and whatever time passes between, it answers as a map that never
-- forgets and withholds what is older than the limit: that expired entries are erased is not seen.
pub expect_all-promised :
    (rs : List Request) (now : ℕ) (c : Cache)
    → (expect_all rs (now, c)).0 ≡ (promise_all rs (now, λ path. lookup path c)).0
expect_all-promised rs now c =
    run-Answers rs (now, c) (now, λ path. lookup path c)
      (refl, λ path later le. (get-get later later path path c (omega arith)).0)
