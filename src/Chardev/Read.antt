-- ===== src/Chardev/Read.antt =====
-- `kllm_read`: the copy in one or two pieces, and what a reader gets.
use native.Mathlib.Nat.{mod-eq_of_lt}
use native.Mathlib.Decide.{dec_lt}
use xpu_kllm.Prelude.{
  ℕ, zero, suc, ◌+◌, ◌-◌, ◌*◌, ◌/◌, ◌%◌, ◌^◌, ◌≤◌, ◌<◌, bit_and, ◌≡◌, ◌⊎◌, ==_of_ne, refl, sym, ap,
  ap₂, ◌∙◌, arith, Bool, true, List, [], ◌∷◌, ◌++◌, Option, none, some, length, length-take, take,
  get_or, ltb, le→leb, lt→leb, if◌then◌else◌, subst,
}
use xpu_kllm.Prelude.Words.{add32, sub32}
use xpu_kllm.Ring.Fifo.{pop_many}
use xpu_kllm.Ring.Inv.{IsValid, used, used-lt, wrap_once}
use xpu_kllm.Ring.Refine.{live, contents, length-contents}
use xpu_kllm.Ring.Batch.{
  batch, advance, advance-IsValid, contents-advance, take-live, pop_many-batch,
}
use xpu_kllm.Chardev.Interface.{Kernel}
use xpu_kllm.Chardev.{
  Device, Errno, Ret, poll, done, error, eagain, erestartsys, slice, copy_tokens, resp_ring_count,
  read_tokens, read,
}
use xpu_kllm.Chardev.Resp.{as_ring, IsSound, waiting, sizes, count-used, count-waiting}

module _ (slots : List ℕ) (c t : ℕ) where
  -- A run of slots before the end of the ring.
  slice-live : (a i n : ℕ) → t + i ≡ a → a + n ≤ c → slice slots a n ≡ live slots c t i n
  unfolding slice live
  slice-live a i zero e h = refl
  slice-live a i (suc n) e h =
      ap₂ (λ (k : ℕ) (l : List ℕ). get_or slots k 0 ∷ l)
        (sym e ∙ sym (mod-eq_of_lt {n = t + i} {m = c} (omega arith)))
        (slice-live (a + 1) (i + 1) n (omega arith) (omega arith))

  -- A run of slots that the ring reaches after its end.
  slice-live_round : (a i n : ℕ) → t + i ≡ a + c → a + n ≤ c → slice slots a n ≡ live slots c t i n
  unfolding slice live
  slice-live_round a i zero e h = refl
  slice-live_round a i (suc n) e h =
      ap₂ (λ (k : ℕ) (l : List ℕ). get_or slots k 0 ∷ l) (ground (arith, wrap_once (t + i) c))
        (slice-live_round (a + 1) (i + 1) n (omega arith) (omega arith))

  live-add : (i m n : ℕ) → live slots c t i (m + n) ≡ live slots c t i m ++ live slots c t (i + m) n
  unfolding live
  live-add i zero n = ap₂ (live slots c t) (omega arith) (omega arith)
  live-add i (suc m) n =
      let e : suc m + n ≡ suc (m + n) = omega arith in
      ap (live slots c t i) e
      ∙ ap (◌∷◌ (get_or slots ((t + i) % c) 0)) (
          live-add (i + 1) m n
          ∙ ap (λ (k : ℕ). live slots c t (i + 1) m ++ live slots c t k n) (omega arith))

module _ (kernel : Kernel) {bits : ℕ} (d : Device) (v : IsSound bits d) where
  -- What the copy takes out when it fits in one piece, and when it goes round the end.
  one_piece :
      (n : ℕ)
      → n ≤ used (as_ring d)
      → d.resp_tail + n ≤ 2 ^ bits
      → slice d.resp_ring d.resp_tail n ≡ take n (waiting d)
  unfolding waiting contents as_ring
  one_piece n h fits =
      let (m, a, b, hh, ht, w) = sizes d v in
      slice-live d.resp_ring (d.resp_mask + 1) d.resp_tail d.resp_tail 0 n (omega arith)
        (omega arith)
      ∙ sym (take-live d.resp_ring (d.resp_mask + 1) d.resp_tail 0 n (used (as_ring d)) h)

  two_pieces :
      (n first second : ℕ)
      → n ≤ used (as_ring d)
      → n ≡ first + second
      → d.resp_tail + first ≡ 2 ^ bits
      → slice d.resp_ring d.resp_tail first ++ slice d.resp_ring 0 second ≡ take n (waiting d)
  unfolding waiting contents as_ring
  two_pieces n first second h e round =
      let (m, a, b, hh, ht, w) = sizes d v in
      let small : used (as_ring d) < d.resp_mask + 1 = used-lt v in
      ap₂ ◌++◌
        (slice-live d.resp_ring c d.resp_tail d.resp_tail 0 first (omega arith) (omega arith))
        (slice-live_round d.resp_ring c d.resp_tail 0 first second (omega arith) (omega arith))
      ∙ ap
          (λ (k : ℕ).
            live d.resp_ring c d.resp_tail 0 first ++ live d.resp_ring c d.resp_tail k second)
          (omega arith)
      ∙ sym (live-add d.resp_ring c d.resp_tail 0 first second)
      ∙ ap (live d.resp_ring c d.resp_tail 0) (sym e)
      ∙ sym (take-live d.resp_ring c d.resp_tail 0 n (used (as_ring d)) h)
    where
      c : ℕ
      c = d.resp_mask + 1

  moved : ℕ → Device
  moved n = record d { resp_tail = bit_and (add32 d.resp_tail n) d.resp_mask }

  used_bound : used (as_ring d) < 2 ^ bits
  used_bound = let e : (as_ring d).slot_count ≡ 2 ^ bits = v.power in omega (arith, used-lt v)

  copy_tokens_lem :
      (n : ℕ)
      → n ≤ used (as_ring d)
      → copy_tokens d n true true ≡ (done (n * 4), take n (waiting d), moved n)
  unfolding copy_tokens moved
  copy_tokens_lem n h =
      let (m, a, b, hh, ht, w) = sizes d v in
      let small : used (as_ring d) < 2 ^ bits = omega (arith, used_bound) in
      elim (dec_lt (2 ^ bits) (d.resp_tail + n)) [
        | no fits ↦
            rw (le→leb (add32 d.resp_tail n) (add32 d.resp_mask 1) (omega arith))
              (ap (λ (l : List ℕ). (done (n * 4), l, moved n)) (one_piece n h (omega arith)))
        | yes round ↦ rw (lt→leb (add32 d.resp_tail n) (add32 d.resp_mask 1) (omega arith)) (
            ap (λ (l : List ℕ). (done (n * 4), l, moved n))
              (two_pieces n (sub32 (add32 d.resp_mask 1) d.resp_tail)
                (sub32 n (sub32 (add32 d.resp_mask 1) d.resp_tail)) h (omega arith) (omega arith)))
      ]

  as_ring-moved : (n : ℕ) → as_ring (moved n) ≡ advance n (as_ring d)
  unfolding as_ring moved advance
  as_ring-moved n =
      ap (λ (m : ℕ). record (as_ring d) { tail = bit_and (add32 d.resp_tail n) m })
        (sym (sizes d v).0)

  module _ (count : ℕ) (h : count < 2 ^ 34) where
    -- The number of tokens that a read of `count` bytes takes.
    abbrev taken : ℕ
    taken = batch (as_ring d) (count / 4)

    read_tokens-taken :
        read_tokens kernel d count true true
        ≡ (done (taken * 4), take taken (waiting d), moved taken)
    unfolding read_tokens
    read_tokens-taken =
        ap (λ (k : ℕ). copy_tokens d k true true) (ground (arith, count-used kernel d v))
        ∙ copy_tokens_lem taken (ground arith)

    -- The reader gets the oldest tokens in order, as many as wait and as its buffer holds, and is
    -- told their size in bytes; the others stay. It does not matter whether the copy goes round
    -- the end of the ring.
    pub read_tokens_refines :
        let (ret, out, d') = read_tokens kernel d count true true in
        ((out, waiting d') ≡ pop_many (waiting d) (count / 4))
        × (ret ≡ done (length out * 4))
        × IsSound bits d'
    unfolding waiting
    read_tokens_refines =
        subst
          (λ (r : Ret × List ℕ × Device).
            ((r.1, waiting r.2) ≡ pop_many (waiting d) (count / 4))
            × (r.0 ≡ done (length r.1 * 4))
            × IsSound bits r.2)
          (sym read_tokens-taken) (popped, ap (λ (k : ℕ). done (k * 4)) counted, sound)
      where
        within : taken ≤ used (as_ring d)
        within = ground arith

        popped : (take taken (waiting d), waiting (moved taken)) ≡ pop_many (waiting d) (count / 4)
        popped =
            ap (λ (l : List ℕ). (take taken (waiting d), l))
              (ap contents (as_ring-moved taken) ∙ contents-advance taken v within)
            ∙ pop_many-batch (as_ring d) (count / 4)

        counted : taken ≡ length (take taken (waiting d))
        counted = omega (arith, within, length-take taken (waiting d), length-contents (as_ring d))

        sound : IsSound bits (moved taken)
        sound = subst (IsValid bits) (sym (as_ring-moved taken)) (advance-IsValid taken v within)

read_direct :
    (kernel : Kernel) (d : Device) (count : ℕ) (nonblock : Bool) (woken : Option Device)
    (copied copied' : Bool)
    → 4 ≤ count
    → 0 < resp_ring_count kernel d
    → read kernel d count nonblock woken copied copied'
      ≡ read_tokens kernel d (count - count % 4) copied copied'
unfolding read
read_direct kernel d count nonblock woken copied copied' h some_waiting = rw (
  ==_of_ne (count - count % 4) 0 (omega arith),
  ==_of_ne (resp_ring_count kernel d) 0 (omega arith),
)

-- `kllm_read` on a device with a sound response ring and tokens in it, with a buffer for at least
-- one token and below 2 ^ 34 bytes, and copies that succeed, does not wait and delivers the oldest
-- tokens in order, as many as wait and as the buffer holds. The ring stays sound.
pub read_refines :
    (kernel : Kernel) {bits : ℕ} (d : Device) (count : ℕ) (nonblock : Bool) (woken : Option Device)
    → IsSound bits d
    → 4 ≤ count
    → count < 2 ^ 34
    → 0 < length (waiting d)
    → let (ret, out, d') = read kernel d count nonblock woken true true in
      ((out, waiting d') ≡ pop_many (waiting d) (count / 4))
      × (ret ≡ done (length out * 4))
      × IsSound bits d'
read_refines kernel {bits} d count nonblock woken v lo hi some_waiting =
    subst
      (λ (r : Ret × List ℕ × Device).
        ((r.1, waiting r.2) ≡ pop_many (waiting d) (count / 4))
        × (r.0 ≡ done (length r.1 * 4))
        × IsSound bits r.2)
      (sym direct)
      (subst
        (λ (k : ℕ).
          let (ret, out, d') = read_tokens kernel d (count - count % 4) true true in
          ((out, waiting d') ≡ pop_many (waiting d) k)
          × (ret ≡ done (length out * 4))
          × IsSound bits d')
        (omega arith) (read_tokens_refines kernel d v (count - count % 4) (omega arith)))
  where
    direct :
        read kernel d count nonblock woken true true
        ≡ read_tokens kernel d (count - count % 4) true true
    direct =
        read_direct kernel d count nonblock woken true true (omega arith)
          (omega (arith, count-waiting kernel d v))

-- An error of `kllm_read` consumes nothing: the device is as it was at the call, or as the wait
-- left it. That holds also where the first of two copies has succeeded.
pub read_error_keeps :
    (kernel : Kernel) (d : Device) (count : ℕ) (nonblock : Bool) (woken : Option Device)
    (copied copied' : Bool) (e : Errno) (out : List ℕ) (d' : Device)
    → read kernel d count nonblock woken copied copied' ≡ (error e, out, d')
    → (d' ≡ d) ⊎ (woken ≡ some d')
unfolding read copy_tokens
read_error_keeps kernel d count nonblock none copied copied' e out d' h = ground arith
read_error_keeps kernel d count nonblock (some w) copied copied' e out d' h = ground arith

-- With a sound response ring, no token in it and a buffer for at least one, `kllm_read` does not
-- report bytes: it fails at once for a non-blocking file, and fails when a signal ends its wait.
pub read_empty :
    (kernel : Kernel) {bits : ℕ} (d : Device) (count : ℕ) (nonblock copied copied' : Bool)
    → IsSound bits d
    → 4 ≤ count
    → waiting d ≡ []
    → read kernel d count nonblock none copied copied'
      ≡ (error (if nonblock then eagain else erestartsys), [], d)
unfolding read
read_empty kernel d count nonblock copied copied' v h e =
    ground (arith, count-waiting kernel d v, ap length e)

-- With a sound response ring `kllm_poll` reports a readable device exactly if a token waits, and
-- always a writable one.
pub poll_lem :
    (kernel : Kernel) {bits : ℕ} (d : Device)
    → IsSound bits d
    → poll kernel d ≡ record { readable = ltb 0 (length (waiting d)); writable = true }
unfolding poll
poll_lem kernel d v = rw (count-waiting kernel d v)
