-- ===== src/Scheduler.antt =====
-- userspace/reactor/batch_scheduler.c: the requests in flight on the reactor thread. The two
-- inference engines, the response path and the clock act on a world `W` and are parameters; the
-- dispatch policy is the one of Dispatch. A queue is the list of its first `count` entries, which
-- are the only ones read; a request's token array is the list of the tokens written to it.
pub mod Step
use xpu_kllm.Prelude.{
  ℕ, zero, suc, ◌+◌, Bool, true, false, not, ◌&&◌, List, [], ◌∷◌, ◌++◌, Option, none, some, get_or,
  set, take, replicate, leb, ◌==◌, if◌then◌else◌,
}
use xpu_kllm.Prelude.Words.{add32, add64}
use xpu_kllm.Dispatch.{Target, cpu, Dispatch}

pub data Phase : Type 0 where
  prefill decode done : Phase

abbrev pub is_done : Phase → Bool
is_done prefill = false
is_done decode = false
is_done done = true

pub record Request : Type 0 where
  pub request_id : ℕ
  pub phase : Phase
  pub target : Target
  pub tokens : List ℕ
  pub prompt_len : ℕ
  pub seq_len : ℕ
  pub arrival_ns : ℕ
  pub last_step_ns : ℕ
  pub priority : ℕ
  pub preempted : Bool
  pub response : ℕ

-- A request whose bytes are all zero: calloc and memset.
abbrev pub zeroed_request : Request
zeroed_request = record {
  request_id = 0;
  phase = prefill;
  target = cpu;
  tokens = [];
  prompt_len = 0;
  seq_len = 0;
  arrival_ns = 0;
  last_step_ns = 0;
  priority = 0;
  preempted = false;
  response = 0;
}

pub record BatchConfig : Type 0 where
  pub max_batch_size : ℕ
  pub prefill_budget : ℕ
  pub max_requests : ℕ
  pub eos_token_id : ℕ

pub record Stats : Type 0 where
  pub total_requests : ℕ
  pub completed_requests : ℕ
  pub preemptions : ℕ
  pub total_tokens_generated : ℕ
  pub batch_iterations : ℕ
  pub current_batch_size : ℕ
  pub current_prefill_queue : ℕ
  pub current_decode_queue : ℕ

abbrev pub no_stats : Stats
no_stats = record {
  total_requests = 0;
  completed_requests = 0;
  preemptions = 0;
  total_tokens_generated = 0;
  batch_iterations = 0;
  current_batch_size = 0;
  current_prefill_queue = 0;
  current_decode_queue = 0;
}

-- The contexts of the engines are in the world; whether there is a GPU context is a flag.
pub record Scheduler (F : Type 0) : Type 0 where
  pub cfg : BatchConfig
  pub has_gpu : Bool
  pub dispatch : Dispatch F
  pub requests : List Request
  pub active_count : ℕ
  pub next_request_id : ℕ
  pub prefill_queue : List ℕ
  pub decode_queue : List ℕ
  pub stats : Stats

abbrev pub max_seq_len : ℕ
max_seq_len = 32768

-- What the scheduler calls. An inference gives the next token, or `none` for a negative result.
pub record Engines (W : Type 0) : Type 0 where
  pub infer_cpu : List ℕ → ℕ → W → Option ℕ × W
  pub infer_gpu : List ℕ → ℕ → W → Option ℕ × W
  pub infer_gpu_escalate : List ℕ → ℕ → W → Option ℕ × W
  pub emit_one : ℕ → ℕ → W → W
  pub eos : ℕ → W → W
  pub now_ns : W → ℕ × W

-- `kllm_batch_create`, for allocations that succeed.
unfoldable pub create : {F : Type 0} → BatchConfig → Bool → Dispatch F → Scheduler F
create c gpu d = record {
  cfg = c;
  has_gpu = gpu;
  dispatch = d;
  requests = replicate c.max_requests zeroed_request;
  active_count = 0;
  next_request_id = 1;
  prefill_queue = [];
  decode_queue = [];
  stats = no_stats;
}

-- The index of the first request with a property.
unfoldable pub first_slot : (Request → Bool) → List Request → ℕ → Option ℕ
first_slot p [] i = none
first_slot p (r ∷ rs) i = let rest = first_slot p rs (i + 1) in if p r then some i else rest

abbrev pub is_vacant : Request → Bool
is_vacant r = is_done r.phase && (r.request_id == 0)

abbrev pub is_completed : Request → Bool
is_completed r = is_done r.phase

-- The slot's index, and the requests, in which a reused slot is cleared.
unfoldable pub find_free_slot : List Request → Option (ℕ × List Request)
unfolding first_slot
find_free_slot rs = elim (first_slot is_vacant rs 0) [
  | some i ↦ some (i, rs)
  | none ↦ elim (first_slot is_completed rs 0) [
    | some i ↦ some (i, set rs i zeroed_request)
    | none ↦ none
  ]
]

-- The request in its slot, from what the slot held.
unfoldable pub admitted : ℕ → List ℕ → ℕ → ℕ → ℕ → Request → Request
admitted id prompt_tokens prompt_len response now req = record req {
  tokens = take prompt_len prompt_tokens;
  prompt_len = prompt_len;
  seq_len = prompt_len;
  request_id = id;
  phase = prefill;
  arrival_ns = now;
  response = response;
  preempted = false;
}

-- `kllm_batch_submit`: the request's id or 0. `memory` tells whether the token array is allocated.
unfoldable pub submit :
    {F W : Type 0} → Engines W → Bool → List ℕ → ℕ → ℕ → Scheduler F → W → ℕ × Scheduler F × W
unfolding find_free_slot admitted
submit {F = F} engines memory prompt_tokens prompt_len response s w =
    if leb s.cfg.max_requests s.active_count then (0, s, w) else elim (find_free_slot s.requests) [
      | none ↦ (0, s, w)
      | some (i, rs) ↦
          let (now, w') = engines.now_ns w in
          let req =
            admitted s.next_request_id prompt_tokens prompt_len response now
              (get_or rs i zeroed_request) in
          let s' : Scheduler F = record s {
            requests = set rs i req;
            next_request_id = add32 s.next_request_id 1;
            active_count = add32 s.active_count 1;
            stats = record s.stats { total_requests = add64 s.stats.total_requests 1 };
          } in
          if memory then (s.next_request_id, s', w') else (0, record s { requests = rs }, w)
    ]
