-- ===== src/Ring/Batch.antt =====
-- The consumer's reads, single and batched, against the bounded queue of Ring.Fifo.
use native.Mathlib.Nat.{mod-eq_of_lt, add-zero}
use xpu_kllm.Prelude.{
  ℕ, zero, suc, ◌+◌, ◌-◌, ◌%◌, ◌^◌, ◌≤◌, ◌<◌, bit_and, ◌≡◌, ◌≢◌, refl, sym, ap, ap₂, ◌∙◌, arith,
  List, ◌∷◌, length, get_or, some, take, drop, if◌then◌else◌, ltb, take_all, drop_all, length-take,
}
use xpu_kllm.Ring.{Ring, mask, consume, consume_batch, available, copy_out}
use xpu_kllm.Ring.Fifo.{pop, pop_many}
use xpu_kllm.Ring.Inv.{IsValid, used, masked, used_lem, used-lt, wrap_once, available-used}
use xpu_kllm.Ring.Refine.{live, live_shift, contents, length-contents}

module _ (slots : List ℕ) (c t : ℕ) where
  pub take-live : (i n m : ℕ) → n ≤ m → take n (live slots c t i m) ≡ live slots c t i n
  unfolding live
  take-live i zero m h = refl
  take-live i (suc n) zero h = absurd (omega arith)
  take-live i (suc n) (suc m) h =
      ap (◌∷◌ (get_or slots ((t + i) % c) 0)) (take-live (i + 1) n m (omega arith))

  drop-live : (i n m : ℕ) → n ≤ m → drop n (live slots c t i m) ≡ live slots c t (i + n) (m - n)
  unfolding live
  drop-live i zero m h = ap₂ (live slots c t) (omega arith) (omega arith)
  drop-live i (suc n) zero h = absurd (omega arith)
  drop-live i (suc n) (suc m) h =
      drop-live (i + 1) n m (omega arith) ∙ ap₂ (live slots c t) (omega arith) (omega arith)

-- The masked copy loop reads the slots in ring order.
copy_out-live :
    {bits : ℕ} {r : Ring} (i n : ℕ)
    → IsValid bits r
    → copy_out r.slots r.tail (mask r) i n ≡ live r.slots r.slot_count r.tail i n
unfolding copy_out live
copy_out-live i zero v = refl
copy_out-live {bits} {r} i (suc n) v =
    ap₂ (λ (k : ℕ) (l : List ℕ). get_or r.slots k 0 ∷ l) (masked (r.tail + i) v)
      (copy_out-live (i + 1) n v)

-- The ring after its tail has moved on by `n`.
unfoldable pub advance : ℕ → Ring → Ring
advance n r = record r { tail = bit_and ((r.tail + n) % 2 ^ 32) (mask r) }

module _ {bits : ℕ} {r : Ring} (n : ℕ) (v : IsValid bits r) (h : n ≤ used r) where
  pub advance-IsValid : IsValid bits (advance n r)
  unfolding advance
  advance-IsValid =
      ground (arith, masked (r.tail + n) v, wrap_once (r.tail + n) r.slot_count, used-lt v)

  pub used-advance : used (advance n r) ≡ used r - n
  unfolding advance
  used-advance = ground (
    arith,
    masked (r.tail + n) v,
    wrap_once (r.tail + n) r.slot_count,
    used_lem v,
    wrap_once (r.head + r.slot_count - bit_and ((r.tail + n) % 2 ^ 32) (mask r)) r.slot_count,
  )

  pub contents-advance : contents (advance n r) ≡ drop n (contents r)
  unfolding contents advance
  contents-advance =
      ap (live r.slots r.slot_count (advance n r).tail 0) used-advance
      ∙ ap (λ (k : ℕ). live r.slots r.slot_count k 0 (used r - n)) (tail_lem)
      ∙ sym (live_shift r.slots r.slot_count r.tail 0 n n (used r - n) (omega arith))
      ∙ sym (
          drop-live r.slots r.slot_count r.tail 0 n (used r) h
          ∙ ap (λ (k : ℕ). live r.slots r.slot_count r.tail k (used r - n)) (omega arith))
    where
      tail_lem : (advance n r).tail ≡ (r.tail + n) % r.slot_count
      tail_lem = masked (r.tail + n) v

-- How many tokens a batched read takes.
abbrev pub batch : Ring → ℕ → ℕ
batch r n = if ltb (used r) n then used r else n

consume_batch_lem :
    {bits : ℕ} {r : Ring} (n : ℕ)
    → IsValid bits r
    → consume_batch r n ≡ (take (batch r n) (contents r), batch r n, advance (batch r n) r)
unfolding consume_batch advance contents
consume_batch_lem {bits} {r} n v = rw (available-used v) (
    ap (λ (l : List ℕ). (l, batch r n, advance (batch r n) r))
      (copy_out-live 0 (batch r n) v
        ∙ sym (take-live r.slots r.slot_count r.tail 0 (batch r n) (used r) (ground arith))))

pub pop_many-batch :
    (r : Ring) (n : ℕ)
    → (take (batch r n) (contents r), drop (batch r n) (contents r)) ≡ pop_many (contents r) n
unfolding pop_many
pop_many-batch r n = ground (
  arith,
  length-contents r,
  take_all n (contents r),
  take_all (used r) (contents r),
  drop_all n (contents r),
  drop_all (used r) (contents r),
)

-- `kllm_ring_consume_batch` on a well-formed ring returns the oldest tokens, at most `max_tokens`
-- of them and all if they fit, in order, counts them right, and leaves the rest in the ring.
pub consume_batch_refines :
    {bits : ℕ} {r : Ring} (max_tokens : ℕ)
    → IsValid bits r
    → let (out, count, r') = consume_batch r max_tokens in
      ((out, contents r') ≡ pop_many (contents r) max_tokens) × (count ≡ length out)
consume_batch_refines {bits} {r} n v = ground (
  arith,
  consume_batch_lem n v,
  contents-advance (batch r n) v,
  pop_many-batch r n,
  length-contents r,
  length-take (batch r n) (contents r),
)

pub front-live :
    (slots : List ℕ) (c t n : ℕ)
    → t < c
    → n ≢ 0
    → live slots c t 0 n ≡ get_or slots t 0 ∷ drop 1 (live slots c t 0 n)
unfolding live
front-live slots c t zero h ne = absurd (ne refl)
front-live slots c t (suc n) h ne =
    ap (λ (k : ℕ). get_or slots k 0 ∷ live slots c t 1 n)
      (ap (λ (k : ℕ). k % c) (add-zero t) ∙ mod-eq_of_lt h)

-- `kllm_ring_consume` on a well-formed ring that is not empty is `pop`: it returns the oldest token
-- and leaves the others in order.
pub consume_refines :
    {bits : ℕ} {r : Ring}
    → IsValid bits r
    → available r ≢ 0
    → let (x, r') = consume r in pop (contents r) ≡ some (x, contents r')
unfolding consume contents advance pop
consume_refines {bits} {r} v ne =
    ap pop
      (front-live r.slots r.slot_count r.tail (used r) v.tail_in (λ e. ne (available-used v ∙ e)))
    ∙ ap (λ (l : List ℕ). some (get_or r.slots r.tail 0, l))
        (sym (contents-advance 1 v (ground (arith, available-used v))))
