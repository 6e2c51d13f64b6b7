-- ===== src/Scheduler/Step/Fresh.antt =====
-- A scheduler as `kllm_batch_create` makes it.
use xpu_kllm.Prelude.{
  ℕ, zero, suc, ◌+◌, ◌≡◌, refl, ap, ap₂, length, take, take_nil, ◌∙◌, arith, Bool, false, List, [],
  ◌∷◌, none, replicate,
}
use xpu_kllm.Dispatch.{Dispatch}
use xpu_kllm.Scheduler.{
  Request, zeroed_request, is_vacant, is_completed, BatchConfig, Scheduler, Engines, Stats, create,
  first_slot, find_free_slot, submit,
}
use xpu_kllm.Scheduler.Step.{
  queues, rebuild_queues, prefill_loop, prefill_phase, decode_loop, decode_phase, retire, step,
}

-- The calls of the scheduler's owner, with the arguments of a submit.
pub data Call : Type 0 where
  submit_call : Bool → List ℕ → ℕ → ℕ → Call
  step_call : Call

module _ {F W : Type 0} (engines : Engines W) where
  -- A sequence of calls: their results, and the state.
  unfoldable pub run : List Call → Scheduler F → W → List ℕ × Scheduler F × W
  unfolding submit step
  run [] s w = ([], s, w)
  run (submit_call memory toks len response ∷ cs) s w =
      let (id, s', w') = submit engines memory toks len response s w in
      let (ns, s2, w2) = run cs s' w' in (id ∷ ns, s2, w2)
  run (step_call ∷ cs) s w =
      let (n, s', w') = step engines s w in let (ns, s2, w2) = run cs s' w' in (n ∷ ns, s2, w2)

first_slot-blank :
    (p : Request → Bool) (n i : ℕ)
    → p zeroed_request ≡ false
    → first_slot p (replicate n zeroed_request) i ≡ none
unfolding first_slot
first_slot-blank p zero i h = refl
first_slot-blank p (suc n) i h = rw h (first_slot-blank p n (i + 1) h)

find_free_slot-blank : (n : ℕ) → find_free_slot (replicate n zeroed_request) ≡ none
unfolding find_free_slot
find_free_slot-blank n =
    rw (find_free_slot, first_slot-blank is_vacant n 0 refl, first_slot-blank is_completed n 0 refl)
      refl

queues-blank : (n i : ℕ) → queues (replicate n zeroed_request) i ≡ ([], [])
unfolding queues
queues-blank zero i = refl
queues-blank (suc n) i = rw (queues-blank n (i + 1)) refl

retire-blank : (n k : ℕ) → retire (replicate n zeroed_request) k ≡ (replicate n zeroed_request, k)
unfolding retire
retire-blank zero k = refl
retire-blank (suc n) k = rw (retire-blank n k) refl

decode_loop-take :
    {W : Type 0} (engines : Engines W) (k eos_token_id : ℕ) (gpu : Bool) (rs : List Request)
    (stats : Stats) (w : W)
    → decode_loop engines eos_token_id gpu (take k []) rs stats w ≡ (0, rs, stats, w)
unfolding decode_loop
decode_loop-take engines k eos_token_id gpu rs stats w =
    ap (λ (q : List ℕ). decode_loop engines eos_token_id gpu q rs stats w) (take_nil ℕ k)

module _ {F W : Type 0} (engines : Engines W) (n : ℕ) where
  submit-blank :
      (s : Scheduler F) (memory : Bool) (toks : List ℕ) (len response : ℕ) (w : W)
      → s.requests ≡ replicate n zeroed_request
      → submit engines memory toks len response s w ≡ (0, s, w)
  unfolding submit
  submit-blank s memory toks len response w e =
      let none_free : find_free_slot s.requests ≡ none =
        ap find_free_slot e ∙ find_free_slot-blank n in
      ground (arith, none_free)

  prefill_phase-blank :
      (s : Scheduler F)
      → s.requests ≡ replicate n zeroed_request
      → ((prefill_phase s).requests ≡ replicate n zeroed_request)
        × ((prefill_phase s).decode_queue ≡ [])
  unfolding prefill_phase rebuild_queues prefill_loop
  prefill_phase-blank s e = rw (e, queues-blank n 0) (refl, ap (λ p. p.1) (queues-blank n 0))

  decode_phase-blank :
      (s : Scheduler F) (w : W)
      → s.requests ≡ replicate n zeroed_request
      → s.decode_queue ≡ []
      → let (k, s', w') = decode_phase engines s w in
        (k ≡ 0) × (s'.requests ≡ replicate n zeroed_request) × (w' ≡ w)
  unfolding decode_phase decode_loop
  decode_phase-blank s w e q = rw q (
    ap (λ p. p.0) (decode_loop-take engines _ _ _ _ _ w),
    ap (λ p. p.1) (decode_loop-take engines _ _ _ _ _ w) ∙ e,
    ap (λ p. p.3) (decode_loop-take engines _ _ _ _ _ w),
  )

  step-blank :
      (s : Scheduler F) (w : W)
      → s.requests ≡ replicate n zeroed_request
      → let (k, s', w') = step engines s w in
        (k ≡ 0) × (s'.requests ≡ replicate n zeroed_request) × (w' ≡ w)
  unfolding step
  step-blank s w e =
      let (rs, queue) = prefill_phase-blank s e in
      let (k, blank, same) = decode_phase-blank (prefill_phase s) w rs queue in
      (
        k,
        ap
              (λ (l : List Request).
                (retire l (decode_phase engines (prefill_phase s) w).1.active_count).0)
              blank
            ∙ ap (λ p. p.0) (retire-blank n _),
        same,
      )

  run-blank :
      (calls : List Call) (s : Scheduler F) (w : W)
      → s.requests ≡ replicate n zeroed_request
      → let (results, s', w') = run engines calls s w in
        (results ≡ replicate (length calls) 0) × (w' ≡ w)
  unfolding run
  run-blank [] s w e = (refl, refl)
  run-blank (submit_call memory toks len response ∷ cs) s w e =
      rw (submit-blank s memory toks len response w e)
        (let (rs, same) = run-blank cs s w e in (ap (◌∷◌ 0) rs, same))
  run-blank (step_call ∷ cs) s w e =
      let (zero_tokens, blank, same) = step-blank s w e in
      let (rs, same') = run-blank cs (step engines s w).1 (step engines s w).2 blank in
      (ap₂ (λ (a : ℕ) (l : List ℕ). a ∷ l) zero_tokens rs, same' ∙ same)

-- A scheduler that `kllm_batch_create` made serves nobody: whatever the owner calls, in any order,
-- every submit returns 0, every step generates 0 tokens, and the world of the engines, the response
-- paths and the clock is left as it was.
pub create_serves_nobody :
    {F W : Type 0} (engines : Engines W) (cfg : BatchConfig) (gpu : Bool) (d : Dispatch F)
    (calls : List Call) (w : W)
    → let (results, s', w') = run engines calls (create cfg gpu d) w in
      (results ≡ replicate (length calls) 0) × (w' ≡ w)
unfolding create
create_serves_nobody engines cfg gpu d calls w =
    run-blank engines cfg.max_requests calls (create cfg gpu d) w refl
