-- ===== src/Tests/Requests.antt =====
-- The batch scheduler with engines that always answer with the token 7.
use xpu_kllm.Prelude.{
  ℕ, ◌+◌, ◌≡◌, ◌≤◌, refl, arith, true, false, [], ◌∷◌, some, replicate, total, ◌==◌, if◌then◌else◌,
}
use xpu_kllm.Dispatch.{Dispatch, create}
use xpu_kllm.Scheduler.{
  Phase, decode, done, Request, zeroed_request, BatchConfig, no_stats, Scheduler, Engines, submit,
}
use xpu_kllm.Scheduler.Step.{step}
use xpu_kllm.Scheduler.Step.Fresh.{submit_call, step_call, run, create_serves_nobody}
use xpu_kllm.Scheduler.Step.Account.{taken, over, IsTracked, step-IsTracked}
use xpu_kllm.Scheduler.Step.Admit.{submit-IsTracked}

abbrev sevens : Engines ℕ
sevens = record {
  infer_cpu = λ toks n w. (some 7, w);
  infer_gpu = λ toks n w. (some 7, w);
  infer_gpu_escalate = λ toks n w. (some 7, w);
  emit_one = λ response token w. w + 1;
  eos = λ response w. w + 1;
  now_ns = λ w. (w, w);
}

abbrev two_slots : BatchConfig
two_slots = record { max_batch_size = 4; prefill_budget = 16; max_requests = 2; eos_token_id = 7 }

abbrev policy_of : Dispatch ℕ
policy_of =
    create (λ h. h == 0) 8
      (record { cpu_seq_threshold = 0; cache_hit_threshold = 8; gpu_queue_max = 0 })

-- One slot is free, the other holds a request that generates tokens.
abbrev one_active : Scheduler ℕ
one_active = record {
  cfg = two_slots;
  has_gpu = false;
  dispatch = policy_of;
  requests =
      record zeroed_request { phase = done }
      ∷ record zeroed_request { phase = decode; request_id = 1 }
      ∷ [];
  active_count = 1;
  next_request_id = 2;
  prefill_queue = [];
  decode_queue = [];
  stats = no_stats;
}

one_active-IsTracked : IsTracked one_active
unfolding taken over
one_active-IsTracked = record { counted = refl; none_over = refl; size = refl; small = omega arith }

create_serves_nobody_example :
    let (results, s', w') =
      run sevens
        (submit_call true (3 ∷ []) 1 0 ∷ step_call ∷ [])
        (xpu_kllm.Scheduler.create two_slots false policy_of)
        0 in
    (results ≡ replicate 2 0) × (w' ≡ 0)
create_serves_nobody_example =
    create_serves_nobody sevens two_slots false policy_of
      (submit_call true (3 ∷ []) 1 0 ∷ step_call ∷ []) 0

step-IsTracked_example :
    let (k, s', w') = step sevens one_active 0 in
    IsTracked s' × (k ≤ 4) × (total taken s'.requests ≤ total taken one_active.requests)
step-IsTracked_example = step-IsTracked sevens one_active 0 one_active-IsTracked

submit-IsTracked_example :
    let (id, s', w') = submit sevens true (3 ∷ []) 1 0 one_active 0 in
    IsTracked s'
    × (total taken s'.requests ≡ total taken one_active.requests + (if id == 0 then 0 else 1))
submit-IsTracked_example =
    submit-IsTracked sevens one_active true (3 ∷ []) 1 0 0 one_active-IsTracked (omega arith)
