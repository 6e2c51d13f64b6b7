-- ===== src/Tests/Polls.antt =====
-- The reactor's poller on a ring with two tokens and a cache that never hits.
use xpu_kllm.Prelude.{ℕ, ◌≡◌, arith, Bool, false, List, [], ◌==◌}
use xpu_kllm.Ring.Refine.{contents, length-contents}
use xpu_kllm.Dispatch.{create}
use xpu_kllm.Reactor.{Reactor, polls}
use xpu_kllm.Reactor.Drain.{polls_drain}
use xpu_kllm.Tests.Fixtures.{two_waiting, two_waiting-IsValid}

abbrev never : List ℕ → ℕ → Bool × ℕ
never key w = (false, w)

abbrev reactor : Reactor ℕ
reactor = record {
  ring = two_waiting;
  tokens_consumed = 0;
  prompts_dispatched = 0;
  dispatch =
      create (λ h. h == 0) 8
        (record { cpu_seq_threshold = 0; cache_hit_threshold = 8; gpu_queue_max = 0 });
}

polls_drain_example : contents (polls never 1 reactor 0).0.ring ≡ []
polls_drain_example =
    polls_drain never 1 reactor 0 two_waiting-IsValid (omega (arith, length-contents two_waiting))
