-- ===== src/Tests/Streams.antt =====
-- A run of the decode loop over natural numbers as floats, with an engine that gives three logits
-- and a response path that logs its commands.
use xpu_kllm.Prelude.{
  ℕ, ◌+◌, ◌-◌, ◌/◌, ◌≤◌, ◌<◌, ◌≡◌, refl, arith, true, List, [], ◌∷◌, ◌++◌, take, length, none, some,
  ltb, leb,
}
use xpu_kllm.Chardev.{Ret, done, Cmd}
use xpu_kllm.Response.{end_of_sequence}
use xpu_kllm.Dispatch.{Dispatch, no_requests}
use xpu_kllm.Sampling.{Floats, Params, Chance, top_k, sample_greedy, sample_token}
use xpu_kllm.Sampling.Argmax.{Ordered}
use xpu_kllm.Sampling.Bounds.{sample_token-lt}
use xpu_kllm.Decode.{max_sequence_len, Engines, Round, Loop, start, finish, run}
use xpu_kllm.Decode.Rounds.{Decodes}
use xpu_kllm.Decode.Streams.{Avoids, emitted_all, run_lem, run-Decodes}

abbrev pub naturals : Floats ℕ
naturals = record {
  neg_infinity = 0;
  zero_float = 0;
  gt = λ a b. ltb b a;
  le = λ a b. leb a b;
  add = λ a b. a + b;
  sub = λ a b. a - b;
  div = λ a b. a / b;
  exp = λ a. a + 1;
}

naturals-Ordered : Ordered naturals
naturals-Ordered = record {
  irrefl = λ a. ground arith;
  asym = λ a b h. ground arith;
  trans = λ a b c h k. ground arith;
  weak = λ a b c h k. ground arith;
}

abbrev three : List ℕ
three = 4 ∷ 9 ∷ 9 ∷ []

greedy_one : sample_greedy naturals three ≡ 1
unfolding sample_greedy
greedy_one = refl

abbrev luck : Chance ℕ
luck = record { draw = 1; probs_fit = true; tops_fit = true }

abbrev best_two : Params ℕ
best_two = record {
  max_tokens = 2;
  eos_token_id = 0;
  sampling = top_k;
  temperature = 1;
  top_k = 2;
  top_p = 1;
}

sample_token-lt_example : sample_token naturals luck three best_two < length three
sample_token-lt_example = sample_token-lt naturals luck three best_two (omega arith) (omega arith)

abbrev engine : Engines ℕ ℕ
engine = record {
  infer_cpu = λ e q r. (true, record { logits = three; vocab_size = 3; next_token = 1 }, e + 1);
  infer_gpu = none;
}

abbrev logged : List Cmd → Cmd → Ret × List Cmd
logged s c = (done 0, s ++ (c ∷ []))

abbrev always : ℕ → Round ℕ
always i = record { chance = luck; elapsed = 5 }

abbrev policy : Dispatch ℕ
policy = record {
  cfg = record { cpu_seq_threshold = 512; cache_hit_threshold = 1; gpu_queue_max = 64 };
  state = no_requests;
}

abbrev prompt : List ℕ
prompt = 11 ∷ 12 ∷ []

run-Decodes_example :
    (ts : List ℕ) × (l' : Loop ℕ ℕ (List Cmd)) × Decodes naturals engine logged best_two always
      (start naturals engine logged 0 policy [] prompt)
      ts
      l'
    × (run naturals engine logged best_two always 0 policy [] prompt
        ≡ some (finish naturals engine logged l'))
run-Decodes_example =
    run-Decodes naturals engine logged best_two always 0 policy [] prompt (omega arith)

run_lem_example :
    (l : Loop ℕ ℕ (List Cmd)) × (ts : List ℕ) × (run naturals engine logged best_two always 0 policy
        [] prompt
      ≡ some l)
    × (l.sequence ≡ take max_sequence_len prompt ++ ts)
    × (length l.sequence ≤ max_sequence_len)
    × (l.generated ≡ length ts)
    × (length ts ≤ best_two.max_tokens)
    × Avoids best_two.eos_token_id ts
    × (l.response
        ≡ (end_of_sequence logged (emitted_all naturals engine logged best_two always [] ts)).1)
run_lem_example = run_lem naturals engine logged best_two always 0 policy [] prompt (omega arith)
