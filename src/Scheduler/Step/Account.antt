-- ===== src/Scheduler/Step/Account.antt =====
-- The number of requests in flight: `active_count` and the slots in use.
use xpu_kllm.Prelude.{
  ℕ, ◌+◌, ◌^◌, ◌≤◌, ◌<◌, ◌≡◌, refl, sym, ap, subst, ◌∙◌, arith, Bool, not, ◌&&◌, List, [], ◌∷◌, inl,
  inr, Bool-cases, get_or, set, take, length, length-set, length-take, total, total-set_same, ltb,
  ◌==◌, if◌then◌else◌,
}
use xpu_kllm.Prelude.Words.{add32, sub32}
use xpu_kllm.Dispatch.{Dispatch}
use xpu_kllm.Scheduler.{Request, zeroed_request, Stats, is_done, Scheduler, Engines, BatchConfig}
use xpu_kllm.Scheduler.Step.{
  StepRc, failed, finished, produced, count_rc, rebuild_queues, run_prefill, prefill_loop,
  prefill_phase, run_decode_step, decode_loop, decode_phase, infer, retire, step,
}

-- 1 for a request in use, and for one in use that is done.
unfoldable pub taken : Request → ℕ
taken r = if r.request_id == 0 then 0 else 1

unfoldable pub over : Request → ℕ
over r = if is_done r.phase && not (r.request_id == 0) then 1 else 0

pub total-taken-le : (rs : List Request) → total taken rs ≤ length rs
unfolding taken
total-taken-le [] = omega arith
total-taken-le (r ∷ rs) = ground (arith, total-taken-le rs)

pub total-over-le : (rs : List Request) → total over rs ≤ total taken rs
unfolding taken over
total-over-le [] = omega arith
total-over-le (r ∷ rs) = ground (arith, total-over-le rs)

-- Retirement frees exactly the slots in use that are done.
retire_lem :
    (rs : List Request) (n : ℕ)
    → n < 2 ^ 32
    → total over rs ≤ n
    → let (rs', n') = retire rs n in
      (n' + total over rs ≡ n)
      × (total over rs' ≡ 0)
      × (total taken rs' + total over rs ≡ total taken rs)
      × (length rs' ≡ length rs)
unfolding retire taken over
retire_lem [] n h le = (omega arith, refl, omega arith, refl)
retire_lem (r ∷ rs) n h le = elim (Bool-cases (is_done r.phase && not (r.request_id == 0))) [
  | inl frees ↦
      let (count, none_over, in_use, len) =
        retire_lem rs (sub32 n 1) (omega arith) (ground (arith, frees)) in
      ground (arith, frees)
  | inr keeps ↦
      let (count, none_over, in_use, len) = retire_lem rs n h (ground (arith, keeps)) in
      ground (arith, keeps)
]

-- No phase of a step changes which slots are in use.
taken_of_decode :
    {W : Type 0} (engines : Engines W) (eos_token_id : ℕ) (gpu : Bool) (req : Request)
    (stats : Stats) (w : W)
    → taken (run_decode_step engines eos_token_id gpu req stats w).1 ≡ taken req
unfolding run_decode_step infer taken
taken_of_decode engines eos_token_id gpu req stats w = ground arith

taken_of_prefill :
    {F : Type 0} (d : Dispatch F) (req : Request) → taken (run_prefill d req).0 ≡ taken req
unfolding run_prefill taken
taken_of_prefill d req = refl

prefill_loop-taken :
    {F : Type 0} (budget : ℕ) (is : List ℕ) (spent : ℕ) (rs : List Request) (d : Dispatch F)
    → let rs' = (prefill_loop budget is spent rs d).0 in
      (total taken rs' ≡ total taken rs) × (length rs' ≡ length rs)
unfolding prefill_loop
prefill_loop-taken budget [] spent rs d = (refl, refl)
prefill_loop-taken budget (i ∷ is) spent rs d =
    let (req, d') = run_prefill d (get_or rs i zeroed_request) in
    let (t, l) =
      prefill_loop-taken budget is (add32 spent (get_or rs i zeroed_request).prompt_len)
        (set rs i req) d' in
    ground (
      arith,
      t,
      l,
      length-set rs i req,
      total-set_same taken rs i req zeroed_request
          (taken_of_prefill d (get_or rs i zeroed_request)),
    )

count_rc-le : (rc : StepRc) → count_rc rc ≤ 1
count_rc-le failed = omega arith
count_rc-le finished = omega arith
count_rc-le produced = omega arith

module _ {W : Type 0} (engines : Engines W) where
  decode_loop-taken :
      (eos_token_id : ℕ) (gpu : Bool) (is : List ℕ) (rs : List Request) (stats : Stats) (w : W)
      → let (k, rs', stats', w') = decode_loop engines eos_token_id gpu is rs stats w in
        (total taken rs' ≡ total taken rs) × (length rs' ≡ length rs) × (k ≤ length is)
  unfolding decode_loop
  decode_loop-taken eos_token_id gpu [] rs stats w = (refl, refl, omega arith)
  decode_loop-taken eos_token_id gpu (i ∷ is) rs stats w =
      let (rc, req, stats', w') =
        run_decode_step engines eos_token_id gpu (get_or rs i zeroed_request) stats w in
      let (t, l, k) = decode_loop-taken eos_token_id gpu is (set rs i req) stats' w' in
      (
        t
            ∙ total-set_same taken rs i req zeroed_request
                (taken_of_decode engines eos_token_id gpu (get_or rs i zeroed_request) stats w),
        l ∙ length-set rs i req,
        omega (arith, k, count_rc-le rc),
      )

-- `active_count` counts the slots in use, and none of these is done.
pub record IsTracked {F : Type 0} (s : Scheduler F) : Type 0 where
  pub counted : s.active_count ≡ total taken s.requests
  pub none_over : total over s.requests ≡ 0
  pub size : length s.requests ≡ s.cfg.max_requests
  pub small : s.cfg.max_requests < 2 ^ 32

prefill_phase-taken :
    {F : Type 0} (s : Scheduler F)
    → let s' = prefill_phase s in
      (total taken s'.requests ≡ total taken s.requests)
      × (length s'.requests ≡ length s.requests)
      × (s'.active_count ≡ s.active_count)
      × (s'.cfg ≡ s.cfg)
unfolding prefill_phase rebuild_queues
prefill_phase-taken s =
    let (t, l) =
      prefill_loop-taken s.cfg.prefill_budget (rebuild_queues s).prefill_queue 0 s.requests
        s.dispatch in
    (t, l, refl, refl)

module _ {F W : Type 0} (engines : Engines W) where
  decode_phase-taken :
      (s : Scheduler F) (w : W)
      → let (k, s', w') = decode_phase engines s w in
        (total taken s'.requests ≡ total taken s.requests)
        × (length s'.requests ≡ length s.requests)
        × (s'.active_count ≡ s.active_count)
        × (s'.cfg ≡ s.cfg)
        × (k ≤ s.cfg.max_batch_size)
  unfolding decode_phase
  decode_phase-taken s w =
      let limit =
        if ltb (length s.decode_queue) s.cfg.max_batch_size
        then length s.decode_queue
        else s.cfg.max_batch_size in
      let (t, l, k) =
        decode_loop-taken engines s.cfg.eos_token_id s.has_gpu (take limit s.decode_queue)
          s.requests (record s.stats { current_batch_size = limit }) w in
      (t, l, refl, refl, ground (arith, k, length-take limit s.decode_queue))

  -- One iteration keeps an exact account exact: the slots in use are counted, and none of them is
  -- done. It generates at most `max_batch_size` tokens, and no slot comes into use.
  pub step-IsTracked :
      (s : Scheduler F) (w : W)
      → IsTracked s
      → let (k, s', w') = step engines s w in
        IsTracked s'
        × (k ≤ s.cfg.max_batch_size)
        × (total taken s'.requests ≤ total taken s.requests)
  unfolding step
  step-IsTracked s w v =
      let (t1, l1, a1, c1) = prefill_phase-taken s in
      let (t2, l2, a2, c2, k) = decode_phase-taken (prefill_phase s) w in
      let s2 = (decode_phase engines (prefill_phase s) w).1 in
      let small : s2.active_count < 2 ^ 32 =
        omega (arith, t1, a1, a2, v.counted, v.size, v.small, total-taken-le s.requests) in
      let le : total over s2.requests ≤ s2.active_count =
        omega (arith, t1, a1, t2, a2, v.counted, total-over-le s2.requests) in
      let (n, clear, t3, l3) = retire_lem s2.requests s2.active_count small le in
      (
        record {
          counted = omega (arith, n, t3, a1, a2, t1, t2, v.counted);
          none_over = clear;
          size = l3 ∙ l2 ∙ l1 ∙ v.size ∙ sym (ap (λ (c : BatchConfig). c.max_requests) (c2 ∙ c1));
          small = subst (λ (c : BatchConfig). c.max_requests < 2 ^ 32) (sym (c2 ∙ c1)) v.small;
        },
        subst (λ (c : BatchConfig). (decode_phase engines (prefill_phase s) w).0 ≤ c.max_batch_size)
            c1 k,
        omega (arith, t3, t2, t1),
      )
