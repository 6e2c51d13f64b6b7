-- ===== src/Chardev/Resp.antt =====
-- The response ring of the character device is a ring of the token ring's kind: the producer side.
use xpu_kllm.Prelude.{
  ℕ, ◌+◌, ◌-◌, ◌%◌, ◌^◌, ◌<◌, ◌≤◌, bit_and, ◌≡◌, sym, ap, ◌∙◌, arith, List, [], ◌∷◌, ◌++◌, length,
  ltb, lt→ltb, le→ltb, subst, if◌then◌else◌, set,
}
use native.Mathlib.Decide.{dec_lt}
use xpu_kllm.Prelude.Words.{add32, two-pow_pos, two-pow_double_le}
use xpu_kllm.Ring.{Ring, mask, produce}
use xpu_kllm.Ring.Fifo.{push}
use xpu_kllm.Ring.Inv.{IsValid, used, produce-IsValid}
use xpu_kllm.Ring.Refine.{
  contents, grown, next, produce_full, produce_room, produce_refines, length-contents,
}
use xpu_kllm.Chardev.Interface.{Kernel}
use xpu_kllm.Chardev.{Device, resp_ring_count, resp_ring_space, resp_produce}

-- The response ring seen as a token ring; the other header fields play no part.
unfoldable pub as_ring : Device → Ring
as_ring d = record {
  magic = 0;
  version = 0;
  slot_count = d.resp_mask + 1;
  head = d.resp_head;
  tail = d.resp_tail;
  seq_id = 0;
  slots = d.resp_ring;
}

abbrev pub IsSound : ℕ → Device → Type 0
IsSound bits d = IsValid bits (as_ring d)

-- The tokens that wait for a reader, oldest first.
unfoldable pub waiting : Device → List ℕ
waiting d = contents (as_ring d)

module _ {bits : ℕ} (d : Device) (v : IsSound bits d) where
  pub sizes :
      (mask (as_ring d) ≡ d.resp_mask)
      × (add32 d.resp_mask 1 ≡ 2 ^ bits)
      × (d.resp_mask + 1 ≡ 2 ^ bits)
      × (d.resp_head < 2 ^ bits)
      × (d.resp_tail < 2 ^ bits)
      × (2 ^ bits + 2 ^ bits ≤ 2 ^ 32)
  unfolding as_ring mask
  sizes =
      let z : 0 < 2 ^ bits = two-pow_pos bits in
      let e : d.resp_mask + 1 ≡ 2 ^ bits = v.power in
      let h : d.resp_head < d.resp_mask + 1 = v.head_in in
      let t : d.resp_tail < d.resp_mask + 1 = v.tail_in in
      let s : bits < 32 = v.small in
      let b : 2 ^ bits + 2 ^ bits ≤ 2 ^ 32 = two-pow_double_le bits s in omega arith

module _ (kernel : Kernel) {bits : ℕ} (d : Device) (v : IsSound bits d) where
  pub count-used : resp_ring_count kernel d ≡ used (as_ring d)
  unfolding resp_ring_count as_ring
  count-used =
      let (m, a, b, h, t, w) = sizes d v in
      ap (kernel.circ_cnt d.resp_head d.resp_tail) a
      ∙ kernel.circ_cnt_lem bits d.resp_head d.resp_tail h t
      ∙ ap (λ (c : ℕ). (d.resp_head + c - d.resp_tail) % c) (sym b)

  pub count-waiting : resp_ring_count kernel d ≡ length (waiting d)
  unfolding waiting
  count-waiting = count-used ∙ sym (length-contents (as_ring d))

  space_lem : resp_ring_space kernel d + used (as_ring d) + 1 ≡ 2 ^ bits
  unfolding resp_ring_space resp_ring_count
  space_lem =
      let (m, a, b, h, t, w) = sizes d v in
      omega (
        arith,
        count-used,
        ap (kernel.circ_cnt d.resp_head d.resp_tail) a,
        ap (kernel.circ_space d.resp_head d.resp_tail) a,
        kernel.circ_space_lem bits d.resp_head d.resp_tail h t,
      )

  abbrev appended : ℕ → Device
  appended x = record d {
    resp_ring = set d.resp_ring d.resp_head x;
    resp_head = bit_and (add32 d.resp_head 1) d.resp_mask;
  }

  produced : (x : ℕ) → 0 < resp_ring_space kernel d → resp_produce kernel d x ≡ appended x
  unfolding resp_produce
  produced x h = rw (lt→ltb _ _ h)

  dropped : (x : ℕ) → resp_ring_space kernel d ≡ 0 → resp_produce kernel d x ≡ d
  unfolding resp_produce
  dropped x h = rw (le→ltb 0 (resp_ring_space kernel d) (omega arith))

  as_ring-appended : (x : ℕ) → as_ring (appended x) ≡ grown x v
  unfolding as_ring grown next
  as_ring-appended x =
      ap
        (λ (m : ℕ). record (as_ring d) {
          head = bit_and (add32 d.resp_head 1) m;
          slots = set d.resp_ring d.resp_head x;
        })
        (sym (sizes d v).0)

  count_eq : (as_ring d).slot_count ≡ 2 ^ bits
  count_eq = v.power

  -- `kllm_resp_produce` is `kllm_ring_produce` on the response ring.
  pub resp_produce-produce : (x : ℕ) → as_ring (resp_produce kernel d x) ≡ (produce (as_ring d) x).1
  resp_produce-produce x = elim (dec_lt (used (as_ring d) + 1) (2 ^ bits)) [
    | yes room ↦
        ap as_ring (produced x (omega (arith, space_lem)))
        ∙ as_ring-appended x
        ∙ sym (ap (λ p. p.1) (produce_room x v (omega (arith, count_eq))).0)
    | no full ↦
        ap as_ring (dropped x (omega (arith, space_lem)))
        ∙ sym (ap (λ p. p.1) (produce_full x v (omega (arith, count_eq, space_lem))))
  ]

  pub resp_produce-IsSound : (x : ℕ) → IsSound bits (resp_produce kernel d x)
  resp_produce-IsSound x = subst (IsValid bits) (sym (resp_produce-produce x)) (produce-IsValid x v)

  -- `kllm_resp_produce` puts the token behind those that wait, if fewer than `resp_mask` of them
  -- do, and otherwise drops it; the answer does not tell which.
  pub waiting-resp_produce :
      (x : ℕ)
      → waiting (resp_produce kernel d x)
        ≡ (if ltb (length (waiting d)) d.resp_mask then waiting d ++ (x ∷ []) else waiting d)
  unfolding waiting push as_ring
  waiting-resp_produce x =
      ap contents (resp_produce-produce x) ∙ ap (λ p. p.1) (produce_refines x v) ∙ ground arith

pub resp_mask-resp_produce :
    (kernel : Kernel) (d : Device) (x : ℕ) → (resp_produce kernel d x).resp_mask ≡ d.resp_mask
unfolding resp_produce
resp_mask-resp_produce kernel d x = ground arith
