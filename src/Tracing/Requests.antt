-- ===== src/Tracing/Requests.antt =====
-- The time of a request, from its write to its end.
use xpu_kllm.Prelude.{
  ℕ, ◌+◌, ◌-◌, ◌^◌, ◌≤◌, ◌<◌, ◌≡◌, ◌≢◌, ◌⊎◌, inl, inr, refl, sym, ap, subst, ◌∙◌, arith, true, List,
  [], ◌∷◌, Option-cases, none, some, get_or, set, length, length-set, get_or-set_self,
  get_or-set_ne, total, ◌==◌, ==_of_ne, ==_iff, lt→ltb, ltb, if◌then◌else◌,
}
use xpu_kllm.Tracing.{
  Event, Emission, RequestTrace, HashMap, Trace, stage_max, chardev_write_stage, delta_of, advanced,
  submit, emit_trace,
}

-- What the BPF hash map promises: a write through the pointer of a key that is there changes this
-- key's value and no other, and a deleted key is not there.
pub record Laws {M : Type 0} (hm : HashMap M) : Type 0 where
  pub lookup_elem-write :
      (m : M) (k : ℕ) (old v : RequestTrace)
      → hm.lookup_elem m k ≡ some old
      → hm.lookup_elem (hm.write m k v) k ≡ some v
  pub lookup_elem-write_ne :
      (m : M) (k j : ℕ) (v : RequestTrace)
      → k ≢ j
      → hm.lookup_elem (hm.write m k v) j ≡ hm.lookup_elem m j
  pub lookup_elem-delete_elem : (m : M) (k : ℕ) → hm.lookup_elem (hm.delete_elem m k) k ≡ none

-- A request that is followed: when it was written, and when its last stage was.
pub record Timed {M : Type 0} (hm : HashMap M) (t : Trace M) (pid start last : ℕ) : Type 0 where
  pub state : RequestTrace
  pub there : hm.lookup_elem t.requests pid ≡ some state
  pub size : length state.stage_ts ≡ stage_max
  pub stage : state.last_stage < stage_max
  pub started : get_or state.stage_ts chardev_write_stage 0 ≡ start
  pub reached : get_or state.stage_ts state.last_stage 0 ≡ last
  pub early : last < 2 ^ 64

-- An emission of the request, at a stage behind the write, not before the last one, with room in
-- the ring buffer.
pub record IsNext (pid last : ℕ) (e : Emission) : Type 0 where
  pub own : e.request_id ≡ pid
  pub behind : 0 < e.stage
  pub known : e.stage < stage_max
  pub later : last ≤ e.now
  pub early : e.now < 2 ^ 64
  pub reserved : e.reserved ≡ true

-- The time of the request's last emission in a sequence.
abbrev pub end_time : ℕ → ℕ → List Emission → ℕ
end_time pid last [] = last
end_time pid last (e ∷ es) = end_time pid (if e.request_id == pid then e.now else last) es

-- A sequence in which the clock does not go back for the request. Other requests are free.
unfoldable pub IsOrderly : ℕ → ℕ → List Emission → Type 0
IsOrderly pid last [] = last ≤ last
IsOrderly pid last (e ∷ es) =
    ((e.request_id ≢ pid) ⊎ IsNext pid last e)
    × IsOrderly pid (if e.request_id == pid then e.now else last) es

abbrev pub latency : ℕ → Event → ℕ
latency pid e = if e.request_id == pid then e.latency_ns else 0

module _ {M : Type 0} (hm : HashMap M) where
  submit-requests : (t : Trace M) (e : Emission) (d : ℕ) → (submit hm t e d).requests ≡ t.requests
  unfolding submit
  submit-requests t e d = ground arith

  submit-total_latency_ns :
      (t : Trace M) (e : Emission) (d : ℕ)
      → (submit hm t e d).stats.total_latency_ns ≡ t.stats.total_latency_ns
  unfolding submit
  submit-total_latency_ns t e d = ground arith

  emit_some :
      (t : Trace M) (e : Emission) (rt : RequestTrace)
      → hm.lookup_elem t.requests e.request_id ≡ some rt
      → emit_trace hm t e
        ≡ submit hm
            (record t { requests = hm.write t.requests e.request_id (advanced rt e) })
            e
            (delta_of rt e)
  unfolding emit_trace
  emit_some t e rt there = rw (there, emit_trace) refl

  emit_none :
      (t : Trace M) (e : Emission)
      → hm.lookup_elem t.requests e.request_id ≡ none
      → emit_trace hm t e ≡ submit hm t e 0
  unfolding emit_trace
  emit_none t e there = rw (there, emit_trace) refl

  pub emit-total_latency_ns :
      (t : Trace M) (e : Emission)
      → (emit_trace hm t e).stats.total_latency_ns ≡ t.stats.total_latency_ns
  emit-total_latency_ns t e = elim (Option-cases (hm.lookup_elem t.requests e.request_id)) [
    | inl none_there ↦
        ap (λ (x : Trace M). x.stats.total_latency_ns) (emit_none t e none_there)
        ∙ submit-total_latency_ns t e 0
    | inr (rt, there) ↦
        ap (λ (x : Trace M). x.stats.total_latency_ns) (emit_some t e rt there)
        ∙ submit-total_latency_ns _ e _
  ]

module _ {M : Type 0} (hm : HashMap M) (laws : Laws hm) (pid start : ℕ) where
  pub next_Timed :
      (t : Trace M) (e : Emission) (last : ℕ)
      → Timed hm t pid start last
      → IsNext pid last e
      → Timed hm (emit_trace hm t e) pid start e.now
  unfolding emit_trace submit advanced
  next_Timed t e last timed next =
      let there : hm.lookup_elem t.requests e.request_id ≡ some timed.state =
        ap (hm.lookup_elem t.requests) next.own ∙ timed.there in
      let known : ltb e.stage stage_max ≡ true = lt→ltb e.stage stage_max next.known in
      let times : (advanced timed.state e).stage_ts ≡ set timed.state.stage_ts e.stage e.now =
        rw known refl in
      record {
        state = advanced timed.state e;
        there =
            ap (λ (x : Trace M). hm.lookup_elem x.requests pid) (emit_some hm t e timed.state there)
            ∙ ap (λ (m : M). hm.lookup_elem m pid) (submit-requests hm _ e _)
            ∙ subst
                (λ (k : ℕ).
                  hm.lookup_elem (hm.write t.requests k (advanced timed.state e)) pid
                  ≡ some (advanced timed.state e))
                (sym next.own)
                (laws.lookup_elem-write t.requests pid timed.state (advanced timed.state e)
                  timed.there);
        size = ap length times ∙ length-set timed.state.stage_ts e.stage e.now ∙ timed.size;
        stage = next.known;
        started =
            ap (λ (xs : List ℕ). get_or xs chardev_write_stage 0) times
            ∙ get_or-set_ne timed.state.stage_ts e.stage chardev_write_stage e.now 0
                (λ z. absurd (omega (arith, next.behind, z)))
            ∙ timed.started;
        reached =
            ap (λ (xs : List ℕ). get_or xs e.stage 0) times
            ∙ get_or-set_self timed.state.stage_ts e.stage e.now 0
                (omega (arith, timed.size, next.known));
        early = next.early;
      }

  pub next_latency :
      (t : Trace M) (e : Emission) (last : ℕ)
      → Timed hm t pid start last
      → IsNext pid last e
      → total (latency pid) (emit_trace hm t e).events
        ≡ total (latency pid) t.events + (e.now - last)
  unfolding submit delta_of
  next_latency t e last timed next =
      let there : hm.lookup_elem t.requests e.request_id ≡ some timed.state =
        ap (hm.lookup_elem t.requests) next.own ∙ timed.there in
      let delta : delta_of timed.state e ≡ e.now - last =
        rw (lt→ltb timed.state.last_stage stage_max timed.stage)
          (omega (arith, timed.reached, timed.early, next.early, next.later)) in
      ap (λ (x : Trace M). total (latency pid) x.events) (emit_some hm t e timed.state there)
      ∙ rw (next.reserved, (==_iff e.request_id pid).1 next.own) (omega (arith, delta))

  pub other_Timed :
      (t : Trace M) (e : Emission) (last : ℕ)
      → Timed hm t pid start last
      → e.request_id ≢ pid
      → Timed hm (emit_trace hm t e) pid start last
  other_Timed t e last timed ne = record {
    state = timed.state;
    there = elim (Option-cases (hm.lookup_elem t.requests e.request_id)) [
      | inl none_there ↦
          ap (λ (x : Trace M). hm.lookup_elem x.requests pid) (emit_none hm t e none_there)
          ∙ ap (λ (m : M). hm.lookup_elem m pid) (submit-requests hm t e 0)
          ∙ timed.there
      | inr (rt, there) ↦
          ap (λ (x : Trace M). hm.lookup_elem x.requests pid) (emit_some hm t e rt there)
          ∙ ap (λ (m : M). hm.lookup_elem m pid) (submit-requests hm _ e _)
          ∙ laws.lookup_elem-write_ne t.requests e.request_id pid (advanced rt e) ne
          ∙ timed.there
    ];
    size = timed.size;
    stage = timed.stage;
    started = timed.started;
    reached = timed.reached;
    early = timed.early;
  }

  pub other_latency :
      (t : Trace M) (e : Emission)
      → e.request_id ≢ pid
      → total (latency pid) (emit_trace hm t e).events ≡ total (latency pid) t.events
  unfolding emit_trace submit
  other_latency t e ne = ground (arith, ==_of_ne e.request_id pid ne)
