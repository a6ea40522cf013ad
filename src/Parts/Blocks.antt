-- ===== src/Parts/Blocks.antt =====
-- The blocks that a file is cut into, joined again.
use marc_fs.Base.{
  ℕ, zero, suc, ◌+◌, ◌*◌, ◌≤◌, ◌<◌, ◌≡◌, sym, ap, ◌∙◌, [], ◌++◌, arith, length, drop, drop_all,
  Bytes,
}
use marc_fs.Base.Slices.{slice, slice-split}
use marc_fs.Parts.{part_count}

-- The bytes of part `idx`.
abbrev pub block : ℕ → Bytes → ℕ → Bytes
block limit body idx = slice (idx * limit) limit body

-- `left` parts from part `idx` on.
unfoldable pub blocks : ℕ → Bytes → ℕ → ℕ → Bytes
blocks limit body zero idx = []
blocks limit body (suc left) idx = block limit body idx ++ blocks limit body left (suc idx)

blocks-drop :
    (limit : ℕ) (body : Bytes) (left idx : ℕ)
    → length body ≤ (idx + left) * limit
    → blocks limit body left idx ≡ drop (idx * limit) body
unfolding blocks
blocks-drop limit body zero idx h = sym (drop_all (idx * limit) body (omega arith))
blocks-drop limit body (suc left) idx h =
    let e : suc idx * limit ≡ idx * limit + limit = omega arith in
    let rest = blocks-drop limit body left (suc idx) (omega arith) in
    ap (λ r. block limit body idx ++ r) (rest ∙ ap (λ k. drop k body) e)
    ∙ slice-split (idx * limit) limit body

-- For a limit above 0, the parts that `part_count` says have more room than the size.
pub part_count-enough : (limit size : ℕ) → 0 < limit → size < part_count limit size * limit
unfolding part_count
part_count-enough limit size h = omega arith

-- All but the last part begin and end inside the file.
pub part_count-room : (limit size : ℕ) → (0 + part_count limit size) * limit ≤ size + limit
unfolding part_count
part_count-room limit size = grind arith

-- For a limit above 0, the parts of a body, as many as `part_count` says and put together in
-- order, are the body.
pub blocks_all :
    (limit : ℕ) (body : Bytes)
    → 0 < limit
    → blocks limit body (part_count limit (length body)) 0 ≡ body
blocks_all limit body h =
    let e : 0 * limit ≡ 0 = omega arith in
    blocks-drop limit body (part_count limit (length body)) 0
      (omega (arith, part_count-enough limit (length body) h))
    ∙ ap (λ k. drop k body) e
