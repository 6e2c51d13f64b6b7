-- ===== src/Scheduler/Step.antt =====
-- `kllm_batch_step` and its parts: queues, prefills, one decode round, retirement.
pub mod Fresh
pub mod Account
pub mod Admit
use xpu_kllm.Prelude.{
  ℕ, zero, suc, ◌+◌, Bool, true, false, not, ◌&&◌, List, [], ◌∷◌, ◌++◌, Option, none, some, get_or,
  set, take, length, ltb, ◌==◌, if◌then◌else◌,
}
use xpu_kllm.Prelude.Words.{add32, sub32, add64}
use xpu_kllm.Dispatch.{Target, cpu, gpu, Dispatch, decide}
use xpu_kllm.Scheduler.{
  Phase, prefill, decode, done, is_done, Request, zeroed_request, Stats, Scheduler, Engines,
  max_seq_len,
}

pub data StepRc : Type 0 where
  failed finished produced : StepRc

-- `rebuild_queues`: the indices of the requests in use, by phase.
unfoldable pub queues : List Request → ℕ → List ℕ × List ℕ
queues [] i = ([], [])
queues (r ∷ rs) i =
    let (p, d) = queues rs (i + 1) in
    if r.request_id == 0
    then (p, d)
    else elim r.phase [ prefill ↦ (i ∷ p, d) | decode ↦ (p, i ∷ d) | done ↦ (p, d) ]

unfoldable pub rebuild_queues : {F : Type 0} → Scheduler F → Scheduler F
unfolding queues
rebuild_queues s =
    let (p, d) = queues s.requests 0 in record s { prefill_queue = p; decode_queue = d }

-- The hash of the prompt is computed and not used, and the cache is taken to hit.
unfoldable pub run_prefill : {F : Type 0} → Dispatch F → Request → Request × Dispatch F
unfolding decide
run_prefill d req =
    let (target, d') = decide d req.seq_len true in
    (record req { target = target; phase = decode }, d')

-- Phase 1 of a step: prefills up to the budget of prompt tokens.
unfoldable pub prefill_loop :
    {F : Type 0} → ℕ → List ℕ → ℕ → List Request → Dispatch F → List Request × Dispatch F
unfolding run_prefill
prefill_loop budget [] spent rs d = (rs, d)
prefill_loop budget (i ∷ is) spent rs d =
    let req = get_or rs i zeroed_request in
    let (req', d') = run_prefill d req in
    let rest = prefill_loop budget is (add32 spent req.prompt_len) (set rs i req') d' in
    if ltb budget (add32 spent req.prompt_len) then (rs, d) else rest

-- Phase 1 with the queues rebuilt before and after.
unfoldable pub prefill_phase : {F : Type 0} → Scheduler F → Scheduler F
unfolding rebuild_queues prefill_loop
prefill_phase s =
    let s1 = rebuild_queues s in
    let stats' : Stats = record s1.stats {
      batch_iterations = add64 s1.stats.batch_iterations 1;
      current_prefill_queue = length s1.prefill_queue;
      current_decode_queue = length s1.decode_queue;
    } in
    let (rs, d) = prefill_loop s1.cfg.prefill_budget s1.prefill_queue 0 s1.requests s1.dispatch in
    rebuild_queues (record s1 { stats = stats'; requests = rs; dispatch = d })

-- The requests in use that are done give their slots back.
unfoldable pub retire : List Request → ℕ → List Request × ℕ
retire [] n = ([], n)
retire (r ∷ rs) n =
    let over = is_done r.phase && not (r.request_id == 0) in
    let (rs', n') = retire rs (if over then sub32 n 1 else n) in
    ((if over then record r { tokens = []; request_id = 0 } else r) ∷ rs', n')

unfoldable pub idle : {F : Type 0} → Scheduler F → Bool
idle s = s.active_count == 0

abbrev pub count_rc : StepRc → ℕ
count_rc failed = 0
count_rc finished = 0
count_rc produced = 1

module _ {W : Type 0} (engines : Engines W) where
  -- The engine of the target; a failure on the CPU goes to the GPU, if there is one.
  unfoldable pub infer : Bool → Request → W → Option ℕ × Target × W
  infer has_gpu req w =
      let (r, w1) = engines.infer_cpu req.tokens req.seq_len w in
      let (r2, w2) = engines.infer_gpu_escalate req.tokens req.seq_len w1 in
      let (r3, w3) = engines.infer_gpu req.tokens req.seq_len w in
      elim req.target [
        | cpu ↦ elim r [
          | some t ↦ (some t, cpu, w1)
          | none ↦ if has_gpu then (r2, gpu, w2) else (none, cpu, w1)
        ]
        | gpu ↦ if has_gpu then (r3, gpu, w3) else (none, gpu, w)
      ]

  unfoldable pub run_decode_step : ℕ → Bool → Request → Stats → W → StepRc × Request × Stats × W
  unfolding infer
  run_decode_step eos_token_id has_gpu req stats w =
      let (r, target, w1) = infer has_gpu req w in
      let req1 : Request = record req { target = target } in
      let over : Stats = record stats { completed_requests = add64 stats.completed_requests 1 } in
      let more : Stats = record stats {
        total_tokens_generated = add64 stats.total_tokens_generated 1;
      } in
      elim r [
        | none ↦ (failed, record req1 { phase = done }, stats, w1)
        | some next ↦
            if next == eos_token_id
            then (finished, record req1 { phase = done }, over, engines.eos req.response w1)
            else let w2 = engines.emit_one req.response next w1 in
              let (now, w3) = engines.now_ns w2 in
              let (now', w4) = engines.now_ns (engines.eos req.response w2) in
              if ltb req.seq_len max_seq_len
              then (
                produced,
                record req1 {
                  tokens = req.tokens ++ (next ∷ []);
                  seq_len = add32 req.seq_len 1;
                  last_step_ns = now;
                },
                more,
                w3,
              )
              else (
                produced,
                record req1 { phase = done; last_step_ns = now' },
                record more { completed_requests = add64 stats.completed_requests 1 },
                w4,
              )
      ]

  -- Phase 2 of a step over the queue's first entries: the tokens generated, and the state.
  unfoldable pub decode_loop :
      ℕ → Bool → List ℕ → List Request → Stats → W → ℕ × List Request × Stats × W
  unfolding run_decode_step
  decode_loop eos_token_id has_gpu [] rs stats w = (0, rs, stats, w)
  decode_loop eos_token_id has_gpu (i ∷ is) rs stats w =
      let (rc, req', stats', w') =
        run_decode_step eos_token_id has_gpu (get_or rs i zeroed_request) stats w in
      let (n, rs2, stats2, w2) = decode_loop eos_token_id has_gpu is (set rs i req') stats' w' in
      (count_rc rc + n, rs2, stats2, w2)

  -- Phase 2, up to the batch limit.
  unfoldable pub decode_phase : {F : Type 0} → Scheduler F → W → ℕ × Scheduler F × W
  unfolding decode_loop
  decode_phase s w =
      let waiting = length s.decode_queue in
      let batch_limit =
        if ltb waiting s.cfg.max_batch_size then waiting else s.cfg.max_batch_size in
      let (n, rs, stats', w') =
        decode_loop s.cfg.eos_token_id s.has_gpu (take batch_limit s.decode_queue) s.requests
          (record s.stats { current_batch_size = batch_limit }) w in
      (n, record s { requests = rs; stats = stats' }, w')

  -- `kllm_batch_step`: the tokens generated, and the state.
  unfoldable pub step : {F : Type 0} → Scheduler F → W → ℕ × Scheduler F × W
  unfolding prefill_phase decode_phase retire
  step s w =
      let (n, s', w') = decode_phase (prefill_phase s) w in
      let (rs, active) = retire s'.requests s'.active_count in
      (n, record s' { requests = rs; active_count = active }, w')
