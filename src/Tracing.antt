-- ===== src/Tracing.antt =====
-- bpf/kllm_trace.bpf.c: the probes that follow a request by the process that wrote it. The BPF hash
-- map is a type with its operations, a parameter; the ring buffer is the list of the events
-- submitted, the latest first; the statistics are those of one CPU, always there. The readings of the
-- clock and whether a reservation in the ring buffer succeeds are arguments.
pub mod Requests
pub mod Latency
use xpu_kllm.Prelude.{
  ℕ, zero, suc, ◌+◌, ◌-◌, ◌^◌, Bool, List, [], ◌∷◌, Option, none, some, get_or, set, replicate, ltb,
  if◌then◌else◌,
}
use xpu_kllm.Prelude.Words.{add64, sub64}

abbrev pub stage_max : ℕ
stage_max = 14

abbrev pub chardev_write_stage : ℕ
chardev_write_stage = 0

abbrev pub tokenize_end_stage : ℕ
tokenize_end_stage = 2

abbrev pub reactor_consume_stage : ℕ
reactor_consume_stage = 4

abbrev pub dispatch_decide_stage : ℕ
dispatch_decide_stage = 5

abbrev pub attention_start_stage : ℕ
attention_start_stage = 7

abbrev pub attention_end_stage : ℕ
attention_end_stage = 8

abbrev pub response_emit_stage : ℕ
response_emit_stage = 10

abbrev pub eos_stage : ℕ
eos_stage = 13

pub record Event : Type 0 where
  pub timestamp_ns : ℕ
  pub request_id : ℕ
  pub stage : ℕ
  pub seq_len : ℕ
  pub token_count : ℕ
  pub latency_ns : ℕ

pub record RequestTrace : Type 0 where
  pub stage_ts : List ℕ
  pub last_stage : ℕ
  pub seq_len : ℕ

pub record Stats : Type 0 where
  pub total_requests : ℕ
  pub total_tokens : ℕ
  pub total_latency_ns : ℕ
  pub max_latency_ns : ℕ
  pub stage_totals : List ℕ

-- The BPF hash map: the look-up of a key, a write through the pointer that it gives, the update of
-- a key, and its deletion.
pub record HashMap (M : Type 0) : Type 0 where
  pub lookup_elem : M → ℕ → Option RequestTrace
  pub write : M → ℕ → RequestTrace → M
  pub update_elem : M → ℕ → RequestTrace → M
  pub delete_elem : M → ℕ → M

pub record Trace (M : Type 0) : Type 0 where
  pub requests : M
  pub events : List Event
  pub stats : Stats

-- The arguments of `emit_trace`, the clock and the reservation.
pub record Emission : Type 0 where
  pub request_id : ℕ
  pub stage : ℕ
  pub seq_len : ℕ
  pub token_count : ℕ
  pub now : ℕ
  pub reserved : Bool

-- The time since the last stage of a request, and its state after this one.
unfoldable pub delta_of : RequestTrace → Emission → ℕ
delta_of rt e =
    if ltb rt.last_stage stage_max then sub64 e.now (get_or rt.stage_ts rt.last_stage 0) else 0

unfoldable pub advanced : RequestTrace → Emission → RequestTrace
advanced rt e = record {
  stage_ts = if ltb e.stage stage_max then set rt.stage_ts e.stage e.now else rt.stage_ts;
  last_stage = e.stage;
  seq_len = e.seq_len;
}

module _ {M : Type 0} (hm : HashMap M) where
  -- The event and the statistics, given the time since the last stage.
  unfoldable pub submit : Trace M → Emission → ℕ → Trace M
  submit t e delta =
      if e.reserved
      then record t {
        events =
            record {
              timestamp_ns = e.now;
              request_id = e.request_id;
              stage = e.stage;
              seq_len = e.seq_len;
              token_count = e.token_count;
              latency_ns = delta;
            }
            ∷ t.events;
        stats =
            if ltb e.stage stage_max
            then record t.stats {
              stage_totals =
                  set t.stats.stage_totals e.stage
                    (add64 (get_or t.stats.stage_totals e.stage 0) delta);
            }
            else t.stats;
      }
      else t

  unfoldable pub emit_trace : Trace M → Emission → Trace M
  unfolding delta_of advanced submit
  emit_trace t e = elim (hm.lookup_elem t.requests e.request_id) [
    | none ↦ submit t e 0
    | some rt ↦
        submit (record t { requests = hm.write t.requests e.request_id (advanced rt e) }) e
          (delta_of rt e)
  ]

  unfoldable pub start_request : Trace M → ℕ → ℕ → Trace M
  start_request t request_id now = record t {
    requests = hm.update_elem t.requests request_id (record {
      stage_ts = set (replicate stage_max 0) chardev_write_stage now;
      last_stage = chardev_write_stage;
      seq_len = 0;
    });
    stats = record t.stats { total_requests = add64 t.stats.total_requests 1 };
  }

  unfoldable pub end_request : Trace M → ℕ → ℕ → Trace M
  end_request t request_id now =
      let requests = hm.delete_elem t.requests request_id in
      elim (hm.lookup_elem t.requests request_id) [
        | none ↦ record t { requests = requests }
        | some rt ↦
            let latency = sub64 now (get_or rt.stage_ts chardev_write_stage 0) in
            record t {
              requests = requests;
              stats = record t.stats {
                total_latency_ns = add64 t.stats.total_latency_ns latency;
                max_latency_ns =
                    if ltb t.stats.max_latency_ns latency then latency else t.stats.max_latency_ns;
              };
            }
      ]

  -- The probes, with the process id, two readings of the clock, and the reservation.
  unfoldable pub trace_chardev_write : Trace M → ℕ → ℕ → ℕ → ℕ → Bool → Trace M
  unfolding emit_trace start_request
  trace_chardev_write t pid count started now reserved =
      emit_trace (start_request t pid started) (record {
        request_id = pid;
        stage = chardev_write_stage;
        seq_len = 0;
        token_count = count;
        now = now;
        reserved = reserved;
      })

  -- The probes that only emit a stage.
  unfoldable pub trace_stage : ℕ → Trace M → ℕ → ℕ → Bool → Trace M
  unfolding emit_trace
  trace_stage stage t pid now reserved = emit_trace t (record {
    request_id = pid;
    stage = stage;
    seq_len = 0;
    token_count = 0;
    now = now;
    reserved = reserved;
  })

  abbrev pub trace_chardev_write_exit : Trace M → ℕ → ℕ → Bool → Trace M
  trace_chardev_write_exit = trace_stage tokenize_end_stage

  abbrev pub trace_reactor_consume : Trace M → ℕ → ℕ → Bool → Trace M
  trace_reactor_consume = trace_stage reactor_consume_stage

  abbrev pub trace_dispatch_decide : Trace M → ℕ → ℕ → Bool → Trace M
  trace_dispatch_decide = trace_stage dispatch_decide_stage

  abbrev pub trace_attention_start : Trace M → ℕ → ℕ → Bool → Trace M
  trace_attention_start = trace_stage attention_start_stage

  abbrev pub trace_attention_end : Trace M → ℕ → ℕ → Bool → Trace M
  trace_attention_end = trace_stage attention_end_stage

  unfoldable pub trace_response_emit : Trace M → ℕ → ℕ → Bool → Trace M
  unfolding emit_trace
  trace_response_emit t pid now reserved =
      emit_trace
        (record t { stats = record t.stats { total_tokens = add64 t.stats.total_tokens 1 } })
        (record {
          request_id = pid;
          stage = response_emit_stage;
          seq_len = 0;
          token_count = 1;
          now = now;
          reserved = reserved;
        })

  unfoldable pub trace_eos : Trace M → ℕ → ℕ → ℕ → Bool → Trace M
  unfolding trace_stage end_request
  trace_eos t pid now ended reserved =
      end_request (trace_stage eos_stage t pid now reserved) pid ended

  -- A sequence of emissions, of any requests.
  unfoldable pub emissions : Trace M → List Emission → Trace M
  emissions t [] = t
  emissions t (e ∷ es) = emissions (emit_trace t e) es
