-- ===== src/Ring.antt =====
-- The token ring: kernel/chardev/kllm_ring.h (producer and consumer) and its mirror
-- userspace/include/kllm_ring_user.h (consumer, with the batched read). The header's fields and
-- the slots behind it are one record; padding is left out. Loads and stores happen one after the
-- other here; Ring.Spsc splits them into the two sides' interleaved steps.
pub mod Fifo
pub mod Inv
pub mod Refine
pub mod Batch
pub mod Spsc
use xpu_kllm.Prelude.{
  ℕ, zero, suc, ◌+◌, ◌-◌, ◌%◌, ◌^◌, ◌≤◌, ◌<◌, bit_and, ◌≡◌, List, [], ◌∷◌, Rc, ok, fail, get_or,
  set, length, ltb, ◌==◌, if◌then◌else◌,
}
use xpu_kllm.Prelude.Words.{add32, sub32}

-- `struct kllm_ring_hdr` and the slots.
pub record Ring : Type 0 where
  pub magic : ℕ
  pub version : ℕ
  pub slot_count : ℕ
  pub head : ℕ
  pub tail : ℕ
  pub seq_id : ℕ
  pub slots : List ℕ

abbrev pub token_ring_magic : ℕ
token_ring_magic = 0x4B4C_4C4D

abbrev pub token_ring_version : ℕ
token_ring_version = 1

unfoldable pub mask : Ring → ℕ
mask r = sub32 r.slot_count 1

-- Producer side: free slots, one of which always stays empty.
unfoldable pub free : Ring → ℕ
unfolding mask
free r = bit_and (sub32 (sub32 r.tail r.head) 1) (mask r)

unfoldable pub produce : Ring → ℕ → Rc × Ring
unfolding mask
produce r token_id =
    let next = bit_and (add32 r.head 1) (mask r) in
    if next == r.tail
    then (fail, r)
    else (ok, record r { head = next; slots = set r.slots r.head token_id })

-- Consumer side.
unfoldable pub available : Ring → ℕ
unfolding mask
available r = bit_and (sub32 r.head r.tail) (mask r)

-- No test for an empty ring: the caller asks `available` first.
unfoldable pub consume : Ring → ℕ × Ring
unfolding mask
consume r = (get_or r.slots r.tail 0, record r { tail = bit_and (add32 r.tail 1) (mask r) })

-- `for (i = 0; i < count; i++) out[i] = slots[(tail + i) & mask]`
unfoldable pub copy_out : List ℕ → ℕ → ℕ → ℕ → ℕ → List ℕ
copy_out slots tail m i zero = []
copy_out slots tail m i (suc n) =
    get_or slots (bit_and (add32 tail i) m) 0 ∷ copy_out slots tail m (i + 1) n

-- The tokens written to `out`, their count, and the ring.
unfoldable pub consume_batch : Ring → ℕ → List ℕ × ℕ × Ring
unfolding mask available copy_out
consume_batch r max_tokens =
    let avail = available r in
    let count = if ltb avail max_tokens then avail else max_tokens in
    (
      copy_out r.slots r.tail (mask r) 0 count,
      count,
      record r { tail = bit_and (add32 r.tail count) (mask r) },
    )
