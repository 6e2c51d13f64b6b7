-- ===== src/Ring/Refine.antt =====
-- The single operations of the token ring against the bounded queue of Ring.Fifo.
use native.Mathlib.Nat.{mod-add-mod}
use native.Mathlib.Decide.{dec_lt}
use xpu_kllm.Prelude.{
  ℕ, zero, suc, ◌+◌, ◌-◌, ◌%◌, ◌^◌, ◌≤◌, ◌<◌, bit_and, ◌≡◌, ◌≢◌, refl, sym, ap, ap₂, ◌∙◌, arith,
  List, [], ◌∷◌, ◌++◌, length, get_or, set, get_or-set_self, get_or-set_ne, ok, fail,
}
use xpu_kllm.Ring.{Ring, mask, produce}
use xpu_kllm.Ring.Fifo.{push}
use xpu_kllm.Ring.Inv.{IsValid, used, masked, used_lem, used-lt, wrap_once}

-- The tokens at the `n` positions from `i` on, counted from position `t` of a ring of `c` slots.
unfoldable pub live : List ℕ → ℕ → ℕ → ℕ → ℕ → List ℕ
live slots c t i zero = []
live slots c t i (suc n) = get_or slots ((t + i) % c) 0 ∷ live slots c t (i + 1) n

-- What a ring holds, oldest first.
unfoldable pub contents : Ring → List ℕ
unfolding live
contents r = live r.slots r.slot_count r.tail 0 (used r)

module _ (slots : List ℕ) (c : ℕ) where
  pub length-live : (t i n : ℕ) → length (live slots c t i n) ≡ n
  unfolding live
  length-live t i zero = refl
  length-live t i (suc n) = ap suc (length-live t (i + 1) n)

  -- One more position at the end.
  pub live_snoc :
      (t i n : ℕ)
      → live slots c t i (suc n) ≡ live slots c t i n ++ (get_or slots ((t + (i + n)) % c) 0 ∷ [])
  unfolding live
  live_snoc t i zero = ap (λ (k : ℕ). get_or slots ((t + k) % c) 0 ∷ []) (omega arith)
  live_snoc t i (suc n) = ap (◌∷◌ (get_or slots ((t + i) % c) 0)) (
      live_snoc t (i + 1) n
      ∙ ap (λ (k : ℕ). live slots c t (i + 1) n ++ (get_or slots ((t + k) % c) 0 ∷ []))
          (omega arith))

  -- Counting from a later position.
  pub live_shift : (t i j k n : ℕ) → k ≡ j + i → live slots c t k n ≡ live slots c ((t + j) % c) i n
  unfolding live
  live_shift t i j k zero e = refl
  live_shift t i j k (suc n) e =
      ap₂ (λ (a : ℕ) (l : List ℕ). get_or slots a 0 ∷ l)
        (ap (λ (a : ℕ). a % c) shift ∙ sym (mod-add-mod (t + j) c i))
        (live_shift t (i + 1) j (k + 1) n (omega arith))
    where
      shift : t + k ≡ t + j + i
      shift = omega arith

-- Positions less than a round apart are different slots.
slots_distinct : (c t i n : ℕ) → t < c → i < n → n < c → (t + n) % c ≢ (t + i) % c
slots_distinct c t i n ht hi hn = λ e. ground (arith, wrap_once (t + n) c, wrap_once (t + i) c)

-- A write to a slot outside the window does not show.
pub live-set :
    (slots : List ℕ) (c t i n m x : ℕ)
    → t < c
    → i + n ≤ m
    → m < c
    → live (set slots ((t + m) % c) x) c t i n ≡ live slots c t i n
unfolding live
live-set slots c t i zero m x ht hi hm = refl
live-set slots c t i (suc n) m x ht hi hm =
    ap₂ ◌∷◌
      (get_or-set_ne slots ((t + m) % c) ((t + i) % c) x 0
        (slots_distinct c t i m ht (omega arith) hm))
      (live-set slots c t (i + 1) n m x ht (omega arith) hm)

pub length-contents : (r : Ring) → length (contents r) ≡ used r
unfolding contents
length-contents r = length-live r.slots r.slot_count r.tail 0 (used r)

-- The head stands right behind the last token.
pub head_lem : {bits : ℕ} {r : Ring} → IsValid bits r → r.head ≡ (r.tail + used r) % r.slot_count
head_lem {bits} {r} v = ground (arith, used_lem v, wrap_once (r.tail + used r) r.slot_count)

-- What `produce` does when a slot is free.
module _ {bits : ℕ} {r : Ring} (x : ℕ) (v : IsValid bits r) where
  abbrev c : ℕ
  c = r.slot_count

  unfoldable pub next : ℕ
  next = bit_and ((r.head + 1) % 2 ^ 32) (mask r)

  unfoldable pub grown : Ring
  grown = record r { head = next; slots = set r.slots r.head x }

  pub produce_full : used r + 1 ≡ r.slot_count → produce r x ≡ (fail, r)
  unfolding produce
  produce_full h =
      ground (arith, masked (r.head + 1) v, wrap_once (r.head + 1) r.slot_count, used_lem v)

  pub produce_room :
      used r + 1 < r.slot_count → (produce r x ≡ (ok, grown)) × (used grown ≡ suc (used r))
  unfolding produce grown next
  produce_room h = ground (
    arith,
    masked (r.head + 1) v,
    wrap_once (r.head + 1) c,
    wrap_once (next + c - r.tail) c,
    used_lem v,
  )

  written : used r + 1 < c → get_or (set r.slots r.head x) ((r.tail + (0 + used r)) % c) 0 ≡ x
  written h =
      ap (λ (k : ℕ). get_or (set r.slots r.head x) (k % c) 0) (omega arith)
      ∙ ap (λ (k : ℕ). get_or (set r.slots r.head x) k 0) (sym (head_lem v))
      ∙ get_or-set_self r.slots r.head x 0 (omega arith)

  unwritten :
      used r + 1 < c
      → live (set r.slots r.head x) c r.tail 0 (used r) ≡ live r.slots c r.tail 0 (used r)
  unwritten h =
      ap (λ (k : ℕ). live (set r.slots k x) c r.tail 0 (used r)) (head_lem v)
      ∙ live-set r.slots c r.tail 0 (used r) (used r) x (omega arith) (omega arith) (omega arith)

  contents-grown : used r + 1 < c → contents grown ≡ contents r ++ (x ∷ [])
  unfolding contents grown
  contents-grown h =
      ap (live (set r.slots r.head x) c r.tail 0) (produce_room h).1
      ∙ live_snoc (set r.slots r.head x) c r.tail 0 (used r)
      ∙ ap₂ (λ (l : List ℕ) (a : ℕ). l ++ (a ∷ [])) (unwritten h) (written h)

-- `kllm_ring_produce` on a well-formed ring is `push` on the queue of the tokens that the ring
-- holds, of capacity one less than the slot count: the same answer, and the token at the end of the
-- queue if there was room; a full ring is left as it was.
pub produce_refines :
    {bits : ℕ} {r : Ring} (x : ℕ)
    → IsValid bits r
    → let (s, r') = produce r x in (s, contents r') ≡ push (r.slot_count - 1) (contents r) x
unfolding push
produce_refines {bits} {r} x v = elim (dec_lt (used r + 1) r.slot_count) [
  | yes h ↦ ground (arith, (produce_room x v h).0, contents-grown x v h, length-contents r)
  | no h ↦ ground (arith, produce_full x v, used-lt v, length-contents r)
]
