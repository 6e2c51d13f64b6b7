-- ===== src/Reactor.antt =====
-- userspace/reactor/kllm_reactor.c: the poller that drains the token ring on the reactor's thread.
-- The cache index is a state `W` with a lookup, which tells whether the block is there; the key is
-- the array of 32 zeros that the code puts in place of a hash.
pub mod Drain
pub mod Startup
pub mod Accounts
pub mod Shutdown
pub mod Cache
use xpu_kllm.Prelude.{ℕ, zero, suc, ◌+◌, ◌-◌, Bool, List, replicate, ◌==◌, if◌then◌else◌}
use xpu_kllm.Prelude.Words.{add64}
use xpu_kllm.Ring.{Ring, consume_batch}
use xpu_kllm.Dispatch.{Dispatch, decide}

abbrev pub poll_batch : ℕ
poll_batch = 256

-- `SPDK_POLLER_IDLE` and `SPDK_POLLER_BUSY`.
pub data Poller : Type 0 where
  idle busy : Poller

-- `struct kllm_reactor_ctx`, less the descriptors and the configuration.
pub record Reactor (F : Type 0) : Type 0 where
  pub ring : Ring
  pub tokens_consumed : ℕ
  pub prompts_dispatched : ℕ
  pub dispatch : Dispatch F

module _ {W : Type 0} (lookup : List ℕ → W → Bool × W) where
  -- Both branches behind the decision only count the prompt.
  unfoldable pub ring_poll : {F : Type 0} → Reactor F → W → Poller × Reactor F × W
  ring_poll c w =
      let (batch, count, ring') = consume_batch c.ring poll_batch in
      let (cache_hit, w') = lookup (replicate 32 0) w in
      let (target, dispatch') = decide c.dispatch count cache_hit in
      let c' = record c {
        ring = ring';
        tokens_consumed = add64 c.tokens_consumed count;
        prompts_dispatched = add64 c.prompts_dispatched 1;
        dispatch = dispatch';
      } in
      if count == 0 then (Poller.idle, record c { ring = ring' }, w) else (Poller.busy, c', w')

  -- The poller called `n` times.
  unfoldable pub polls : {F : Type 0} → ℕ → Reactor F → W → Reactor F × W
  unfolding ring_poll
  polls zero c w = (c, w)
  polls (suc n) c w = let (rc, c', w') = ring_poll c w in polls n c' w'
