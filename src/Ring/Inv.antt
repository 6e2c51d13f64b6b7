-- ===== src/Ring/Inv.antt =====
-- The representation invariant of the token ring, and its masked arithmetic in plain numbers.
use native.Mathlib.Nat.{mod-eq_of_lt, mod-eq-sub-mod}
use xpu_kllm.Prelude.{
  ℕ, ◌+◌, ◌-◌, ◌%◌, ◌^◌, ◌≤◌, ◌<◌, bit_and, ◌≡◌, ap, ◌∙◌, arith, length, length-set, ltb, lt→ltb,
  le→ltb, if◌then◌else◌, min,
}
use native.Mathlib.Decide.{dec_lt}
use xpu_kllm.Prelude.Words.{sub32, mask32, lift32, two-pow_pos, two-pow-le}
use xpu_kllm.Ring.{Ring, mask, free, produce, available, consume, consume_batch}

-- `bits` is the exponent of the slot count.
pub record IsValid (bits : ℕ) (r : Ring) : Type 0 where
  pub small : bits < 32
  pub power : r.slot_count ≡ 2 ^ bits
  pub head_in : r.head < r.slot_count
  pub tail_in : r.tail < r.slot_count
  pub storage : length r.slots ≡ r.slot_count

-- How many tokens wait, in plain arithmetic.
abbrev pub used : Ring → ℕ
used r = (r.head + r.slot_count - r.tail) % r.slot_count

pub slot_count_lt :
    {bits : ℕ} {r : Ring} → IsValid bits r → (0 < r.slot_count) × (r.slot_count ≤ 2 ^ 32)
slot_count_lt {bits} v = omega (arith, two-pow_pos bits, two-pow-le bits)

mask_lem : {bits : ℕ} {r : Ring} → IsValid bits r → mask r ≡ 2 ^ bits - 1
unfolding mask
mask_lem v = omega (arith, slot_count_lt v)

-- The masked sum is the sum modulo the slot count.
pub masked :
    {bits : ℕ} {r : Ring} (a : ℕ)
    → IsValid bits r
    → bit_and (a % 2 ^ 32) (mask r) ≡ a % r.slot_count
masked {bits} a v = rw (mask_lem v, v.power) (mask32 bits a (omega arith))

lift_count :
    {bits : ℕ} {r : Ring} (y : ℕ)
    → IsValid bits r
    → (y + (2 ^ 32 - r.slot_count)) % r.slot_count ≡ y % r.slot_count
lift_count {bits} y v = rw v.power (lift32 bits y (omega arith))

-- A remainder that goes round at most once.
pub wrap_once : (x c : ℕ) → x < c + c → x % c ≡ (if ltb x c then x else x - c)
wrap_once x c h = elim (dec_lt x c) [
  | yes p ↦ rw (lt→ltb x c p) (mod-eq_of_lt p)
  | no p ↦ rw (le→ltb x c (omega arith)) (
      mod-eq-sub-mod {n = x} {m = c} (omega arith) ∙ mod-eq_of_lt {n = x - c} {m = c} (omega arith))
]

pub available-used : {bits : ℕ} {r : Ring} → IsValid bits r → available r ≡ used r
unfolding available
available-used {bits} {r} v =
    masked (r.head + 2 ^ 32 - r.tail) v
    ∙ ap (λ (t : ℕ). t % r.slot_count) shift
    ∙ lift_count (r.head + r.slot_count - r.tail) v
  where
    shift : r.head + 2 ^ 32 - r.tail ≡ r.head + r.slot_count - r.tail + (2 ^ 32 - r.slot_count)
    shift = omega (arith, slot_count_lt v)

-- `used` without a remainder.
pub used_lem :
    {bits : ℕ} {r : Ring}
    → IsValid bits r
    → used r ≡ (if ltb r.head r.tail then r.head + r.slot_count - r.tail else r.head - r.tail)
used_lem {bits} {r} v = ground (arith, wrap_once (r.head + r.slot_count - r.tail) r.slot_count)

pub used-lt : {bits : ℕ} {r : Ring} → IsValid bits r → used r < r.slot_count
used-lt v = ground (arith, used_lem v)

-- Two borrows from 2 ^ 32 do not show either.
double_wrap :
    {bits : ℕ} {r : Ring}
    → IsValid bits r
    → (sub32 r.tail r.head + 2 ^ 32 - 1) % r.slot_count ≡ r.slot_count - 1 - used r
double_wrap {bits} {r} v = elim (dec_lt r.tail r.head) [
  | yes p ↦
      let e : sub32 r.tail r.head + 2 ^ 32 - 1
          ≡ r.tail + c - r.head - 1 + c + (2 ^ 32 - c) + (2 ^ 32 - c) =
        omega (arith, slot_count_lt v) in
      ap (λ (t : ℕ). t % c) e
      ∙ lift_count (r.tail + c - r.head - 1 + c + (2 ^ 32 - c)) v
      ∙ lift_count (r.tail + c - r.head - 1 + c) v
      ∙ ground (arith, used_lem v, wrap_once (r.tail + c - r.head - 1 + c) c)
  | no p ↦
      let e : sub32 r.tail r.head + 2 ^ 32 - 1 ≡ r.tail - r.head + c - 1 + (2 ^ 32 - c) =
        omega (arith, slot_count_lt v) in
      ap (λ (t : ℕ). t % c) e
      ∙ lift_count (r.tail - r.head + c - 1) v
      ∙ ground (arith, used_lem v, wrap_once (r.tail - r.head + c - 1) c)
]
  where
    c : ℕ
    c = r.slot_count

-- The producer's and the consumer's counts of a well-formed ring: one slot is never filled.
pub free-add-available :
    {bits : ℕ} {r : Ring} → IsValid bits r → free r + available r + 1 ≡ r.slot_count
unfolding free
free-add-available {bits} {r} v =
    omega (
      arith,
      available-used v,
      used-lt v,
      masked (sub32 r.tail r.head + 2 ^ 32 - 1) v,
      double_wrap v,
    )

-- `produce` fails exactly on a full ring; else it keeps the invariant and adds one token.
pub produce-IsValid : {bits : ℕ} {r : Ring} (x : ℕ) → IsValid bits r → IsValid bits (produce r x).1
unfolding produce
produce-IsValid {bits} {r} x v =
    ground (
      arith,
      masked (r.head + 1) v,
      wrap_once (r.head + 1) r.slot_count,
      length-set r.slots r.head x,
    )

pub consume-IsValid : {bits : ℕ} {r : Ring} → IsValid bits r → IsValid bits (consume r).1
unfolding consume
consume-IsValid {bits} {r} v =
    ground (arith, masked (r.tail + 1) v, wrap_once (r.tail + 1) r.slot_count)

pub consume_batch-IsValid :
    {bits : ℕ} {r : Ring} (n : ℕ) → IsValid bits r → IsValid bits (consume_batch r n).2
unfolding consume_batch
consume_batch-IsValid {bits} {r} n v = ground (
  arith,
  available-used v,
  used-lt v,
  masked (r.tail + min (available r) n) v,
  wrap_once (r.tail + min (available r) n) r.slot_count,
)
