-- ===== src/Tests/Fixtures.antt =====
-- Small rings and devices, and the kernel's helpers as plain functions.
use native.Mathlib.Nat.{mod-lt, pow-suc, pow-le-pow_right}
use xpu_kllm.Prelude.{
  ℕ, zero, suc, ◌+◌, ◌-◌, ◌*◌, ◌%◌, ◌^◌, ◌≤◌, ◌<◌, ◌≡◌, refl, sym, ap, subst, ◌∙◌, arith, [], ◌∷◌,
  none, leb, le→leb, lt→leb, if◌then◌else◌,
}
use xpu_kllm.Prelude.Words.{two-pow_pos}
use xpu_kllm.Ring.{Ring}
use xpu_kllm.Ring.Inv.{IsValid}
use xpu_kllm.Chardev.{Device}
use xpu_kllm.Chardev.Interface.{Kernel}
use xpu_kllm.Chardev.Resp.{as_ring, IsSound}

-- The power of two reached from `p` by doubling it while it stays within `n`.
abbrev pub round_from : ℕ → ℕ → ℕ → ℕ
round_from zero p n = p
round_from (suc f) p n = let more = round_from f (p * 2) n in if leb (p * 2) n then more else p

pow_step : (k : ℕ) → 2 ^ (k + 1) ≡ 2 ^ k * 2
pow_step k = ap (◌^◌ 2) (add_one k) ∙ pow-suc 2 k
  where
    add_one : (k : ℕ) → k + 1 ≡ suc k
    add_one k = omega arith

pub lt-two_pow : (b : ℕ) → b < 2 ^ b
lt-two_pow zero = omega arith
lt-two_pow (suc b) = omega (arith, lt-two_pow b, pow_step b)

pub round_from_lem :
    (f k j n : ℕ)
    → 2 ^ (k + j) ≤ n
    → n < 2 ^ (k + j + 1)
    → j ≤ f
    → round_from f (2 ^ k) n ≡ 2 ^ (k + j)
round_from_lem zero k j n low high h = ap (λ (e : ℕ). 2 ^ e) (let e : k ≡ k + j = omega arith in e)
round_from_lem (suc f) k zero n low high h =
    let e : k ≡ k + 0 = omega arith in
    let top : n < 2 ^ (k + 1) = subst (λ (i : ℕ). n < 2 ^ (i + 1)) (sym e) high in
    rw (lt→leb (2 ^ k * 2) n (omega (arith, pow_step k))) (ap (λ (i : ℕ). 2 ^ i) e)
round_from_lem (suc f) k (suc j) n low high h =
    let e : k + 1 + j ≡ k + suc j = omega arith in
    let le : 2 ^ (k + 1) ≤ 2 ^ (k + suc j) = pow-le-pow_right (omega arith) (omega arith) in
    rw (le→leb (2 ^ k * 2) n (omega (arith, pow_step k))) (
      ap (λ (p : ℕ). round_from f p n) (sym (pow_step k))
      ∙ round_from_lem f (k + 1) j n (subst (λ (i : ℕ). 2 ^ i ≤ n) (sym e) low)
          (subst (λ (i : ℕ). n < 2 ^ (i + 1)) (sym e) high) (omega arith)
      ∙ ap (λ (i : ℕ). 2 ^ i) e)

pub round_down : (bits n : ℕ) → 2 ^ bits ≤ n → n < 2 ^ (bits + 1) → round_from n 1 n ≡ 2 ^ bits
round_down bits n low high =
    let e : 0 + bits ≡ bits = omega arith in
    round_from_lem n 0 bits n (subst (λ (i : ℕ). 2 ^ i ≤ n) (sym e) low)
      (subst (λ (i : ℕ). n < 2 ^ (i + 1)) (sym e) high) (omega (arith, lt-two_pow bits))
    ∙ ap (λ (i : ℕ). 2 ^ i) e

abbrev pub linux : Kernel
linux = record {
  circ_cnt = λ head tail size. (head + size - tail) % size;
  circ_space = λ head tail size. size - 1 - (head + size - tail) % size;
  rounddown_pow_of_two = λ n. round_from n 1 n;
  circ_cnt_lem = λ bits head tail h t. refl;
  circ_space_lem =
      λ bits head tail h t. omega (arith, mod-lt (head + 2 ^ bits - tail) (two-pow_pos bits));
  rounddown_lem = λ bits n low high. round_down bits n low high;
}

-- Four slots, two tokens waiting.
abbrev pub two_waiting : Ring
two_waiting = record {
  magic = 0;
  version = 0;
  slot_count = 4;
  head = 3;
  tail = 1;
  seq_id = 0;
  slots = 9 ∷ 7 ∷ 8 ∷ 0 ∷ [];
}

pub two_waiting-IsValid : IsValid 2 two_waiting
two_waiting-IsValid = record {
  small = omega arith;
  power = refl;
  head_in = omega arith;
  tail_in = omega arith;
  storage = refl;
}

-- Four entries in the response ring, two tokens waiting, and none.
abbrev pub with_two : Device
with_two = record {
  token_ring = none;
  resp_ring = 5 ∷ 6 ∷ 0 ∷ 0 ∷ [];
  resp_head = 2;
  resp_tail = 0;
  resp_mask = 3;
}

pub with_two-IsSound : IsSound 2 with_two
unfolding as_ring
with_two-IsSound = record {
  small = omega arith;
  power = refl;
  head_in = omega arith;
  tail_in = omega arith;
  storage = refl;
}

abbrev pub with_none : Device
with_none = record with_two { resp_head = 0 }

pub with_none-IsSound : IsSound 2 with_none
unfolding as_ring
with_none-IsSound = record {
  small = omega arith;
  power = refl;
  head_in = omega arith;
  tail_in = omega arith;
  storage = refl;
}
