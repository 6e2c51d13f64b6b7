-- ===== src/Reactor/Drain.antt =====
-- What one call of the poller takes from the ring, and what many calls do.
use xpu_kllm.Prelude.{
  ℕ, zero, suc, ◌*◌, ◌≤◌, ◌≡◌, refl, ap, ◌∙◌, arith, Bool, List, [], length, length-drop,
  length-take, drop, drop_all, min, ◌==◌, ==_of_ne, if◌then◌else◌,
}
use native.Mathlib.Decide.{ℕ_discrete}
use xpu_kllm.Prelude.Words.{add64}
use xpu_kllm.Ring.{consume_batch}
use xpu_kllm.Ring.Fifo.{pop_many}
use xpu_kllm.Ring.Inv.{IsValid, consume_batch-IsValid}
use xpu_kllm.Ring.Refine.{contents}
use xpu_kllm.Ring.Batch.{consume_batch_refines}
use xpu_kllm.Reactor.{Poller, Reactor, poll_batch, ring_poll, polls}

module _ {F W : Type 0} (lookup : List ℕ → W → Bool × W) {bits : ℕ} where
  taken_count :
      (c : Reactor F)
      → IsValid bits c.ring
      → let (out, count, r') = consume_batch c.ring poll_batch in
        (count ≡ min poll_batch (length (contents c.ring)))
        × (contents r' ≡ drop poll_batch (contents c.ring))
  unfolding pop_many
  taken_count c v =
      let (both, count) = consume_batch_refines poll_batch v in
      (
        count
            ∙ ap (λ (p : List ℕ × List ℕ). length p.0) both
            ∙ length-take poll_batch (contents c.ring),
        ap (λ (p : List ℕ × List ℕ). p.1) both,
      )

  -- One call of the poller on a well-formed ring takes the oldest tokens, at most 256, and counts
  -- them; it reports idle exactly if there was none. The ring stays well formed.
  pub ring_poll_lem :
      (c : Reactor F) (w : W)
      → IsValid bits c.ring
      → let (rc, c', w') = ring_poll lookup c w in
        IsValid bits c'.ring
        × (contents c'.ring ≡ drop poll_batch (contents c.ring))
        × (rc ≡ (if length (contents c.ring) == 0 then Poller.idle else Poller.busy))
        × (c'.tokens_consumed ≡ (
            if length (contents c.ring) == 0
            then c.tokens_consumed
            else add64 c.tokens_consumed (min poll_batch (length (contents c.ring)))))
  unfolding ring_poll
  ring_poll_lem c w v =
      let (count, rest) = taken_count c v in
      let v' = consume_batch-IsValid poll_batch v in
      elim (ℕ_discrete (length (contents c.ring)) 0) [
        | yes none_left ↦
            let z : (consume_batch c.ring poll_batch).1 ≡ 0 = omega (arith, count) in
            rw (ring_poll, z, none_left) (v', rest, refl, refl)
        | no some_left ↦
            rw
              (
                ring_poll,
                count,
                ==_of_ne (min poll_batch (length (contents c.ring))) 0 (omega arith),
                ==_of_ne (length (contents c.ring)) 0 some_left,
              )
              (v', rest, refl, refl)
      ]

  -- However many tokens wait in a well-formed ring, a call of the poller for every 256 of them
  -- empties it.
  pub polls_drain :
      (n : ℕ) (c : Reactor F) (w : W)
      → IsValid bits c.ring
      → length (contents c.ring) ≤ 256 * n
      → contents (polls lookup n c w).0.ring ≡ []
  unfolding polls
  polls_drain zero c w v h = drop_all 0 (contents c.ring) (omega arith)
  polls_drain (suc n) c w v h =
      let (v', rest, rc, count) = ring_poll_lem c w v in
      polls_drain n (ring_poll lookup c w).1 (ring_poll lookup c w).2 v'
        (omega (arith, ap length rest, length-drop poll_batch (contents c.ring)))
