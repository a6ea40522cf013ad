-- ===== src/Rest/Transfers/Laws.antt =====
-- An upload sends the bytes that it was asked to send.
use marc_fs.Base.{
  ℕ, zero, suc, ◌+◌, ◌-◌, ◌%◌, ◌≤◌, ◌<◌, min, ◌≡◌, sym, ap, ◌∙◌, inl, inr, Option, some, [], arith,
  ltb, if◌then◌else◌, Bool-cases, length, is_nil, length-eq-zero, u64_mod, Bytes, ok,
}
use marc_fs.Cloud.{off_max}
use marc_fs.Base.Slices.{slice, length-slice, slice-append, slice_to_end}
use marc_fs.Rest.Transfers.{ReadData, read_data, read_function, sent, then_more}

available_lem :
    (count offset : ℕ)
    → offset ≤ count
    → count < u64_mod
    → (count + u64_mod - offset) % u64_mod ≡ count - offset
available_lem count offset h k = omega arith

-- One call of the read function, and what the later ones send.
sent_step :
    (o t left : ℕ) (body : Bytes) (rest : Option Bytes)
    → t ≤ left
    → (0 < left → 0 < t)
    → o + left ≤ length body
    → (0 < left → rest ≡ some (slice (o + t) (left - t) body))
    → (if is_nil (slice o t body) then some [] else then_more (slice o t body) rest)
      ≡ some (slice o left body)
unfolding then_more
sent_step o t left body rest h some_t inside e = elim (Bool-cases (is_nil (slice o t body))) [
  | inl none_left ↦
      let empty : length (slice o t body) ≡ 0 = ground arith in
      let done : length (slice o left body) ≡ 0 =
        ground (arith, length-slice o t body, length-slice o left body) in
      rw none_left (ap some (sym (length-eq-zero (slice o left body) done)))
  | inr some_left ↦
      let more : 0 < left = ground (arith, length-slice o t body, length-slice o left body) in
      let all : t + (left - t) ≡ left = omega arith in
      rw some_left (
        ap (then_more (slice o t body)) (e more)
        ∙ ap some (sym (slice-append o t (left - t) body) ∙ ap (λ k. slice o k body) all))
]

sent_all :
    (ask : ℕ → ℕ) (fuel : ℕ) (d : ReadData)
    → ((k : ℕ) → 0 < ask k)
    → d.offset ≤ d.count
    → d.count ≤ length d.content
    → d.count < u64_mod
    → d.count - d.offset < fuel
    → sent ask fuel d ≡ some (slice d.offset (d.count - d.offset) d.content)
unfolding sent read_function then_more
sent_all ask zero d pos_ask h k small enough = absurd (omega arith)
sent_all ask (suc fuel) d pos_ask h k small enough =
    let left = d.count - d.offset in
    let t = min (ask fuel) left in
    let d' : ReadData = record d { offset = d.offset + t } in
    rw (available_lem d.count d.offset h small) (
      sent_step d.offset t left d.content (sent ask fuel d') (omega arith)
        (λ more. omega (arith, pos_ask fuel)) (omega arith)
        λ more.
          sent_all ask fuel d' pos_ask (omega arith) k small (omega (arith, pos_ask fuel))
          ∙ ap (λ n. some (slice (d.offset + t) n d.content)) (omega arith))

pub sent-slice :
    (ask : ℕ → ℕ) (fuel : ℕ) (body : Bytes) (start count : ℕ)
    → ((k : ℕ) → 0 < ask k)
    → start ≤ length body
    → length body ≤ off_max
    → start + count ≤ off_max
    → length body < fuel
    → (d : ReadData) × (read_data body start count ≡ ok d)
      × (sent ask fuel d ≡ some (slice start count body))
unfolding read_data
sent-slice ask fuel body start count pos_ask inside small far enough =
    let d : ReadData = record {
      content = body;
      offset = start;
      count = min (length body) (start + count);
    } in
    (
      d,
      ground arith,
      sent_all ask fuel d pos_ask (omega arith) (omega arith) (omega arith) (omega arith)
          ∙ ap some (elim (Bool-cases (ltb (length body) (start + count))) [
            | inl over ↦
                ap (λ n. slice start n body) (ground arith)
                ∙ sym (slice_to_end start count body (ground arith))
            | inr fits ↦ ap (λ n. slice start n body) (ground arith)
          ]),
    )
