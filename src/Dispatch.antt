-- ===== src/Dispatch.antt =====
-- userspace/compute/dispatch_policy.c: whether a step of a request runs on the CPU or the GPU.
pub mod Laws
use xpu_kllm.Prelude.{ℕ, ◌+◌, ◌-◌, Bool, true, false, not, ◌&&◌, ltb, leb, ◌==◌, if◌then◌else◌}
use xpu_kllm.Prelude.Words.{add32, add64}

pub data Target : Type 0 where
  cpu gpu : Target

abbrev pub is_cpu : Target → Bool
is_cpu cpu = true
is_cpu gpu = false

-- The hit threshold is a float `F`; the policy stores it and reads it nowhere.
pub record Config (F : Type 0) : Type 0 where
  pub cpu_seq_threshold : ℕ
  pub cache_hit_threshold : F
  pub gpu_queue_max : ℕ

pub record State : Type 0 where
  pub total_requests : ℕ
  pub cpu_dispatches : ℕ
  pub gpu_dispatches : ℕ
  pub cache_hits : ℕ
  pub cache_misses : ℕ
  pub gpu_queue_depth : ℕ

pub record Dispatch (F : Type 0) : Type 0 where
  pub cfg : Config F
  pub state : State

abbrev pub no_requests : State
no_requests = record {
  total_requests = 0;
  cpu_dispatches = 0;
  gpu_dispatches = 0;
  cache_hits = 0;
  cache_misses = 0;
  gpu_queue_depth = 0;
}

-- `kllm_dispatch_create`, for an allocation that succeeds. `is_zero` compares a float with 0.0f,
-- and `default_hit` is 0.8f.
unfoldable pub create : {F : Type 0} → (F → Bool) → F → Config F → Dispatch F
create is_zero default_hit c = record {
  cfg = record {
    cpu_seq_threshold = if c.cpu_seq_threshold == 0 then 512 else c.cpu_seq_threshold;
    cache_hit_threshold =
        if is_zero c.cache_hit_threshold then default_hit else c.cache_hit_threshold;
    gpu_queue_max = if c.gpu_queue_max == 0 then 64 else c.gpu_queue_max;
  };
  state = no_requests;
}

-- A request's length and cache hit, or a completion on the GPU.
pub data Event : Type 0 where
  request : ℕ → Bool → Event
  complete : Event

module _ {F : Type 0} where
  -- The ladder of the decision, before the overflow rule.
  unfoldable pub first_choice : Config F → ℕ → Bool → Target
  first_choice c seq_len cache_hit =
      if leb seq_len c.cpu_seq_threshold && cache_hit
      then cpu
      else if ltb c.cpu_seq_threshold seq_len
      then gpu
      else if not cache_hit
      then gpu
      else gpu

  unfoldable pub decide : Dispatch F → ℕ → Bool → Target × Dispatch F
  unfolding first_choice
  decide d seq_len cache_hit =
      let s = d.state in
      let counted : State = record s {
        total_requests = add64 s.total_requests 1;
        cache_hits = if cache_hit then add64 s.cache_hits 1 else s.cache_hits;
        cache_misses = if cache_hit then s.cache_misses else add64 s.cache_misses 1;
      } in
      let overflow =
        not (is_cpu (first_choice d.cfg seq_len cache_hit))
        && leb d.cfg.gpu_queue_max s.gpu_queue_depth
        && leb seq_len d.cfg.cpu_seq_threshold in
      let target = if overflow then cpu else first_choice d.cfg seq_len cache_hit in
      let after : State =
        if is_cpu target
        then record counted { cpu_dispatches = add64 s.cpu_dispatches 1 }
        else record counted {
          gpu_dispatches = add64 s.gpu_dispatches 1;
          gpu_queue_depth = add32 s.gpu_queue_depth 1;
        } in
      (target, record d { state = after })

  unfoldable pub gpu_complete : Dispatch F → Dispatch F
  gpu_complete d =
      let s = d.state in
      if ltb 0 s.gpu_queue_depth
      then record d { state = record s { gpu_queue_depth = s.gpu_queue_depth - 1 } }
      else d

  unfoldable pub step : Dispatch F → Event → Dispatch F
  unfolding decide gpu_complete
  step d (request seq_len hit) = (decide d seq_len hit).1
  step d complete = gpu_complete d
