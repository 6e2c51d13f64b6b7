-- ===== src/Decode.antt =====
-- userspace/decode/decode_loop.c: the loop that generates tokens. The engines, which run the model,
-- and the file behind the response path are states with operations.
pub mod Rounds
pub mod Streams
use xpu_kllm.Prelude.{
  ℕ, zero, suc, ◌+◌, ◌-◌, ◌/◌, Bool, true, false, ◌&&◌, not, List, [], ◌∷◌, ◌++◌, take, length,
  Option, none, some, min, ltb, ◌==◌, if◌then◌else◌,
}
use xpu_kllm.Prelude.Words.{add64}
use xpu_kllm.Dispatch.{Dispatch, Target, cpu, gpu, decide}
use xpu_kllm.Chardev.{Ret, Cmd}
use xpu_kllm.Response.{emit_one, end_of_sequence}
use xpu_kllm.Sampling.{Floats, Params, Chance, sample_token}

abbrev pub max_sequence_len : ℕ
max_sequence_len = 32768

-- `struct kllm_infer_result`. Before the first round the array is NULL, which is `[]`.
pub record Result (F : Type 0) : Type 0 where
  pub logits : List F
  pub vocab_size : ℕ
  pub next_token : ℕ

-- What an inference gives: whether it succeeded, the result and the engines after it.
abbrev pub Infer : Type 0 → Type 0 → Type 0
Infer F E = E → List ℕ → Result F → Bool × Result F × E

-- The inference on the CPU, and that on the GPU if there is a context for it. The escalation of
-- infer_gpu.c is the inference on the GPU.
pub record Engines (F E : Type 0) : Type 0 where
  pub infer_cpu : Infer F E
  pub infer_gpu : Option (Infer F E)

-- The environment of a round: the chance of its choice, and the time it took.
pub record Round (F : Type 0) : Type 0 where
  pub chance : Chance F
  pub elapsed : ℕ

-- The state of the loop, with the engines `E` and the response path `S`.
pub record Loop (F E S : Type 0) : Type 0 where
  pub sequence : List ℕ
  pub generated : ℕ
  pub result : Result F
  pub engines : E
  pub dispatch : Dispatch F
  pub response : S
  pub total_ns : ℕ
  pub stopped_eos : Bool

pub record DecodeStats : Type 0 where
  pub tokens_generated : ℕ
  pub total_latency_ns : ℕ
  pub avg_token_latency_ns : ℕ
  pub stopped_eos : Bool

-- A token that is emitted in a round, the end of sequence, or a failure of the inference.
pub data Outcome : Type 0 where
  token : ℕ → Outcome
  ended : Outcome
  failed : Outcome

module _ {F E S : Type 0} (fl : Floats F) (ops : Engines F E) (ioctl : S → Cmd → Ret × S) where
  -- The branch on the target of the dispatch.
  unfoldable pub infer : Target → E → List ℕ → Result F → Bool × Result F × E
  infer cpu e sequence r =
      let (ok, r', e') = ops.infer_cpu e sequence r in
      if ok
      then (true, r', e')
      else elim ops.infer_gpu [ none ↦ (false, r', e') | some run ↦ run e' sequence r' ]
  infer gpu e sequence r = elim ops.infer_gpu [ none ↦ (false, r, e) | some run ↦ run e sequence r ]

  -- The result of the emission is not looked at. It is `some` for every token.
  abbrev pub emitted : S → ℕ → S
  emitted s t = elim (emit_one ioctl s t) [ none ↦ s | some (rc, s') ↦ s' ]

  -- One round.
  unfoldable pub round : Params F → Round F → Loop F E S → Outcome × Loop F E S
  unfolding infer
  round params env l =
      let (target, d) = decide l.dispatch (length l.sequence) true in
      let (ok, r, e) = infer target l.engines l.sequence l.result in
      let l' : Loop F E S = record l { dispatch = d; result = r; engines = e } in
      let next_token = sample_token fl env.chance (take r.vocab_size r.logits) params in
      let timed : Loop F E S = record l' { total_ns = add64 l.total_ns env.elapsed } in
      if not ok
      then (failed, l')
      else if next_token == params.eos_token_id
      then (
        ended,
        record timed { stopped_eos = true; response = (end_of_sequence ioctl l.response).1 },
      )
      else (
        token next_token,
        record timed {
          response = emitted l.response next_token;
          sequence = l.sequence ++ (next_token ∷ []);
          generated = l.generated + 1;
        },
      )

  -- The loop, `n` rounds at most. A round that emits no token ends it.
  unfoldable pub rounds : ℕ → Params F → (ℕ → Round F) → Loop F E S → Loop F E S
  unfolding round
  rounds zero params envs l = l
  rounds (suc n) params envs l =
      let (outcome, l') = round params (envs l.generated) l in
      let rest = rounds n params envs l' in
      if ltb l.generated params.max_tokens && ltb (length l.sequence) max_sequence_len
      then elim outcome [ token t ↦ rest | ended ↦ l' | failed ↦ l' ]
      else l

  unfoldable pub start : E → Dispatch F → S → List ℕ → Loop F E S
  start e d s prompt = record {
    sequence = take max_sequence_len prompt;
    generated = 0;
    result = record { logits = []; vocab_size = 0; next_token = 0 };
    engines = e;
    dispatch = d;
    response = s;
    total_ns = 0;
    stopped_eos = false;
  }

  -- What follows the loop.
  unfoldable pub finish : Loop F E S → Loop F E S
  finish l =
      if l.stopped_eos then l else record l { response = (end_of_sequence ioctl l.response).1 }

  unfoldable pub stats_of : Loop F E S → DecodeStats
  stats_of l = record {
    tokens_generated = l.generated;
    total_latency_ns = l.total_ns;
    avg_token_latency_ns = if ltb 0 l.generated then l.total_ns / l.generated else 0;
    stopped_eos = l.stopped_eos;
  }

  -- `kllm_decode_run`, for an allocation that succeeds: -1 for an empty prompt, which is `none`, or
  -- the state at the end. A round grows the sequence by one, so `max_sequence_len` rounds are enough.
  unfoldable pub run : Params F → (ℕ → Round F) → E → Dispatch F → S → List ℕ → Option (Loop F E S)
  unfolding rounds start finish
  run params envs e d s prompt =
      if length prompt == 0
      then none
      else some (finish (rounds max_sequence_len params envs (start e d s prompt)))
