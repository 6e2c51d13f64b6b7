-- ===== src/Ring/Spsc/Window.antt =====
-- The single stores of the two sides of the token ring, and what they do to its contents.
use xpu_kllm.Prelude.{
  ℕ, suc, ◌+◌, ◌-◌, ◌%◌, ◌^◌, ◌<◌, bit_and, ◌≡◌, ◌≢◌, refl, sym, ap, ◌∙◌, arith, [], ◌∷◌, ◌++◌,
  length-set, get_or, set, ok,
}
use xpu_kllm.Prelude.Words.{add32}
use xpu_kllm.Ring.{Ring, mask, produce, consume}
use xpu_kllm.Ring.Inv.{IsValid, used, masked, used_lem, wrap_once}
use xpu_kllm.Ring.Refine.{live, live_snoc, live-set, head_lem, contents}
use xpu_kllm.Ring.Batch.{front-live, contents-advance, used-advance, advance}

-- `(head + 1) & mask` and `(tail + 1) & mask`.
unfoldable pub next_head : Ring → ℕ
next_head r = bit_and (add32 r.head 1) (mask r)

unfoldable pub next_tail : Ring → ℕ
next_tail r = bit_and (add32 r.tail 1) (mask r)

-- `slots[head] = token_id`.
unfoldable pub store : ℕ → Ring → Ring
store x r = record r { slots = set r.slots r.head x }

-- `WRITE_ONCE(hdr->head, next)`.
unfoldable pub publish : Ring → Ring
publish r = record r { head = next_head r }

-- The store of the new tail.
unfoldable pub release : Ring → Ring
release r = record r { tail = next_tail r }

-- Run in a row on a ring that is not full, the producer's steps are `kllm_ring_produce`.
pub produce_steps :
    (r : Ring) (x : ℕ) → next_head r ≢ r.tail → produce r x ≡ (ok, publish (store x r))
unfolding produce publish store next_head
produce_steps r x h = ground arith

-- Run in a row, the consumer's steps are `kllm_ring_consume`.
pub consume_steps : (r : Ring) → consume r ≡ (get_or r.slots r.tail 0, release r)
unfolding consume release next_tail
consume_steps r = refl

module _ {bits : ℕ} {r : Ring} (v : IsValid bits r) where
  pub room_of_next : next_head r ≢ r.tail → used r + 1 < r.slot_count
  unfolding next_head
  room_of_next h =
      ground (arith, masked (r.head + 1) v, wrap_once (r.head + 1) r.slot_count, used_lem v)

  pub store-IsValid : (x : ℕ) → IsValid bits (store x r)
  unfolding store
  store-IsValid x = ground (arith, length-set r.slots r.head x)

  pub publish-IsValid : IsValid bits (publish r)
  unfolding publish next_head
  publish-IsValid = ground (arith, masked (r.head + 1) v, wrap_once (r.head + 1) r.slot_count)

  pub release-IsValid : IsValid bits (release r)
  unfolding release next_tail
  release-IsValid = ground (arith, masked (r.tail + 1) v, wrap_once (r.tail + 1) r.slot_count)

  -- A store to the free slot behind the contents does not show, and hits no slot being read.
  pub contents-store : (x : ℕ) → used r + 1 < r.slot_count → contents (store x r) ≡ contents r
  unfolding store contents
  contents-store x h =
      ap (λ (k : ℕ). live (set r.slots k x) c r.tail 0 (used r)) (head_lem v)
      ∙ live-set r.slots c r.tail 0 (used r) (used r) x (omega arith) (omega arith) (omega arith)
    where
      c : ℕ
      c = r.slot_count

  pub head-ne-tail : 0 < used r → r.head ≢ r.tail
  head-ne-tail h = ground (arith, used_lem v)

  pub used-publish : used r + 1 < r.slot_count → used (publish r) ≡ suc (used r)
  unfolding publish next_head
  used-publish h = ground (
    arith,
    masked (r.head + 1) v,
    wrap_once (r.head + 1) r.slot_count,
    wrap_once (bit_and ((r.head + 1) % 2 ^ 32) (mask r) + r.slot_count - r.tail) r.slot_count,
    used_lem v,
  )

  pub contents-publish :
      used r + 1 < r.slot_count
      → contents (publish r) ≡ contents r ++ (get_or r.slots r.head 0 ∷ [])
  unfolding publish contents
  contents-publish h =
      ap (live r.slots c r.tail 0) (used-publish h)
      ∙ live_snoc r.slots c r.tail 0 (used r)
      ∙ ap (λ (k : ℕ). live r.slots c r.tail 0 (used r) ++ (get_or r.slots k 0 ∷ []))
          (ap (λ (k : ℕ). (r.tail + k) % c) (omega arith) ∙ sym (head_lem v))
    where
      c : ℕ
      c = r.slot_count

  pub used-release : 0 < used r → suc (used (release r)) ≡ used r
  unfolding release next_tail advance
  used-release h = omega (arith, used-advance 1 v h)

  -- The oldest token leaves, and the others stay.
  pub contents-release : 0 < used r → contents r ≡ get_or r.slots r.tail 0 ∷ contents (release r)
  unfolding release next_tail contents advance
  contents-release h =
      front-live r.slots r.slot_count r.tail (used r) v.tail_in (omega arith)
      ∙ ap (◌∷◌ (get_or r.slots r.tail 0)) (sym (contents-advance 1 v h))
