-- ===== src/Tests/Traces.antt =====
-- A traced request: written at 100, consumed at 150, ended at 180, with another process between.
use xpu_kllm.Prelude.{
  ℕ, ◌+◌, ◌-◌, ◌≡◌, ◌≢◌, inl, inr, refl, arith, true, List, [], ◌∷◌, Option, none, some, replicate,
  set, total, ◌==◌, ==_iff, ==_of_ne, if◌then◌else◌,
}
use xpu_kllm.Prelude.Words.{add64}
use xpu_kllm.Tracing.{Emission, RequestTrace, HashMap, Trace, trace_eos, emissions}
use xpu_kllm.Tracing.Requests.{Laws, Timed, IsOrderly, latency}
use xpu_kllm.Tracing.Latency.{trace_eos_lem}

abbrev Table : Type 0
Table = ℕ → Option RequestTrace

abbrev put : Table → ℕ → Option RequestTrace → Table
put m k v j = if k == j then v else m j

abbrev table : HashMap Table
table = record {
  lookup_elem = λ m k. m k;
  write = λ m k v. put m k (some v);
  update_elem = λ m k v. put m k (some v);
  delete_elem = λ m k. put m k none;
}

put_self : (m : Table) (k : ℕ) (v : Option RequestTrace) → put m k v k ≡ v
put_self m k v = rw ((==_iff k k).1 refl) refl

put_ne : (m : Table) (k j : ℕ) (v : Option RequestTrace) → k ≢ j → put m k v j ≡ m j
put_ne m k j v ne = rw (==_of_ne k j ne) refl

table-Laws : Laws table
table-Laws = record {
  lookup_elem-write = λ m k old v e. put_self m k (some v);
  lookup_elem-write_ne = λ m k j v ne. put_ne m k j (some v) ne;
  lookup_elem-delete_elem = λ m k. put_self m k none;
}

-- Process 5 wrote its prompt at 100.
abbrev written : RequestTrace
written = record { stage_ts = set (replicate 14 0) 0 100; last_stage = 0; seq_len = 0 }

abbrev traced : Trace Table
traced = record {
  requests = put (λ k. none) 5 (some written);
  events = [];
  stats = record {
    total_requests = 1;
    total_tokens = 0;
    total_latency_ns = 0;
    max_latency_ns = 0;
    stage_totals = replicate 14 0;
  };
}

abbrev emission : ℕ → ℕ → ℕ → Emission
emission pid stage now = record {
  request_id = pid;
  stage = stage;
  seq_len = 0;
  token_count = 0;
  now = now;
  reserved = true;
}

abbrev between : List Emission
between = emission 5 4 150 ∷ emission 6 4 10 ∷ []

traced-Timed : Timed table traced 5 100 100
traced-Timed = record {
  state = written;
  there = refl;
  size = refl;
  stage = omega arith;
  started = refl;
  reached = refl;
  early = omega arith;
}

orderly : IsOrderly 5 100 between
unfolding IsOrderly
orderly = (
  inr (record {
    own = refl;
    behind = omega arith;
    known = omega arith;
    later = omega arith;
    early = omega arith;
    reserved = refl;
  }),
  (inl (λ e. absurd (omega (arith, e))), omega arith),
)

trace_eos_lem_example :
    let t' = trace_eos table (emissions table traced between) 5 180 190 true in
    (t'.requests 5 ≡ none)
    × (total (latency 5) t'.events ≡ 0 + (180 - 100))
    × (t'.stats.total_latency_ns ≡ add64 0 (190 - 100))
trace_eos_lem_example =
    trace_eos_lem table traced between 5 100 100 180 190 table-Laws traced-Timed orderly
      (omega arith) (omega arith) (omega arith) (omega arith)
