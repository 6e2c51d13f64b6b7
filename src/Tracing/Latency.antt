-- ===== src/Tracing/Latency.antt =====
-- The latencies that a request leaves behind.
use xpu_kllm.Prelude.{
  ℕ, ◌+◌, ◌-◌, ◌^◌, ◌≤◌, ◌<◌, ◌≡◌, inl, inr, refl, sym, ap, subst, ◌∙◌, arith, true, List, [], ◌∷◌,
  none, get_or, total, ◌==◌, ==_of_ne, ==_iff, if◌then◌else◌,
}
use xpu_kllm.Prelude.Words.{sub64, add64}
use xpu_kllm.Tracing.{
  Emission, HashMap, Trace, chardev_write_stage, eos_stage, emit_trace, end_request, trace_stage,
  trace_eos, emissions,
}
use xpu_kllm.Tracing.Requests.{
  Laws, Timed, IsNext, IsOrderly, end_time, latency, next_Timed, next_latency, other_Timed,
  other_latency, emit-total_latency_ns,
}

module _ {M : Type 0} (hm : HashMap M) (laws : Laws hm) (pid start : ℕ) where
  -- What a sequence of emissions leaves: the request followed, and its latencies one after another.
  record Follows (t t' : Trace M) (last last' : ℕ) : Type 0 where
    timed : Timed hm t' pid start last'
    later : last ≤ last'
    sum : total (latency pid) t'.events ≡ total (latency pid) t.events + (last' - last)
    totals : t'.stats.total_latency_ns ≡ t.stats.total_latency_ns

  emissions_lem :
      (es : List Emission) (t : Trace M) (last : ℕ)
      → Timed hm t pid start last
      → IsOrderly pid last es
      → Follows t (emissions hm t es) last (end_time pid last es)
  unfolding IsOrderly emissions
  emissions_lem [] t last timed orderly = record {
    timed = timed;
    later = omega arith;
    sum = omega arith;
    totals = refl;
  }
  emissions_lem (e ∷ es) t last timed (inl ne, rest) =
      let skip : (if e.request_id == pid then e.now else last) ≡ last =
        rw (==_of_ne e.request_id pid ne) refl in
      let f =
        emissions_lem es (emit_trace hm t e) last (other_Timed hm laws pid start t e last timed ne)
          (subst (λ (x : ℕ). IsOrderly pid x es) skip rest) in
      subst (λ (x : ℕ). Follows t (emissions hm (emit_trace hm t e) es) last (end_time pid x es))
        (sym skip)
        (record {
          timed = f.timed;
          later = f.later;
          sum = omega (arith, f.sum, other_latency hm laws pid start t e ne);
          totals = f.totals ∙ emit-total_latency_ns hm t e;
        })
  emissions_lem (e ∷ es) t last timed (inr next, rest) =
      let move : (if e.request_id == pid then e.now else last) ≡ e.now =
        rw ((==_iff e.request_id pid).1 next.own) refl in
      let f =
        emissions_lem es (emit_trace hm t e) e.now
          (next_Timed hm laws pid start t e last timed next)
          (subst (λ (x : ℕ). IsOrderly pid x es) move rest) in
      subst (λ (x : ℕ). Follows t (emissions hm (emit_trace hm t e) es) last (end_time pid x es))
        (sym move)
        (record {
          timed = f.timed;
          later = omega (arith, f.later, next.later);
          sum = omega (
            arith,
            f.sum,
            f.later,
            next.later,
            next_latency hm laws pid start t e last timed next,
          );
          totals = f.totals ∙ emit-total_latency_ns hm t e;
        })

  end_lem :
      (t : Trace M) (last ended : ℕ)
      → Timed hm t pid start last
      → start ≤ ended
      → ended < 2 ^ 64
      → (hm.lookup_elem (end_request hm t pid ended).requests pid ≡ none)
        × ((end_request hm t pid ended).events ≡ t.events)
        × ((end_request hm t pid ended).stats.total_latency_ns
            ≡ add64 t.stats.total_latency_ns (ended - start))
  unfolding end_request
  end_lem t last ended timed le lt =
      let gap : sub64 ended (get_or timed.state.stage_ts chardev_write_stage 0) ≡ ended - start =
        omega (arith, timed.started) in
      rw (timed.there, end_request)
        (laws.lookup_elem-delete_elem t.requests pid, refl, ap (add64 t.stats.total_latency_ns) gap)

-- A request's latencies add up. From a state in which it was written at `start` and had its last
-- stage at `last`, after any orderly sequence of emissions, of this request and of others, and the
-- end of the sequence: the request is no longer followed, the latencies of its events have grown by
-- the time from `last` to the probe of the end, and the total latency by the time from `start` to
-- the request's end. The request's emissions are at known stages
-- behind the write, its readings of the clock do not go back and are below 2 ^ 64, its events find
-- room in the ring buffer, and the hash map keeps its laws.
pub trace_eos_lem :
    {M : Type 0} (hm : HashMap M) (t : Trace M) (es : List Emission) (pid start last now ended : ℕ)
    → Laws hm
    → Timed hm t pid start last
    → IsOrderly pid last es
    → end_time pid last es ≤ now
    → start ≤ ended
    → now < 2 ^ 64
    → ended < 2 ^ 64
    → let t' = trace_eos hm (emissions hm t es) pid now ended true in
      (hm.lookup_elem t'.requests pid ≡ none)
      × (total (latency pid) t'.events ≡ total (latency pid) t.events + (now - last))
      × (t'.stats.total_latency_ns ≡ add64 t.stats.total_latency_ns (ended - start))
unfolding trace_eos trace_stage
trace_eos_lem hm t es pid start last now ended laws timed orderly le le' lt lt' =
    let f = emissions_lem hm laws pid start es t last timed orderly in
    let e : Emission = record {
      request_id = pid;
      stage = eos_stage;
      seq_len = 0;
      token_count = 0;
      now = now;
      reserved = true;
    } in
    let next : IsNext pid (end_time pid last es) e = record {
      own = refl;
      behind = omega arith;
      known = omega arith;
      later = le;
      early = lt;
      reserved = refl;
    } in
    let u = emissions hm t es in
    let timed' = next_Timed hm laws pid start u e (end_time pid last es) f.timed next in
    let (gone, events, totals) =
      end_lem hm laws pid start (emit_trace hm u e) now ended timed' le' lt' in
    (
      gone,
      ap (total (latency pid)) events
          ∙ omega (
            arith,
            next_latency hm laws pid start u e (end_time pid last es) f.timed next,
            f.sum,
            f.later,
            le,
          ),
      totals ∙ ap (λ (x : ℕ). add64 x (ended - start)) (emit-total_latency_ns hm u e ∙ f.totals),
    )
