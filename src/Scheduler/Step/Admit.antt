-- ===== src/Scheduler/Step/Admit.antt =====
-- `kllm_batch_submit`: which slot a request gets, and the account of the slots in use.
use xpu_kllm.Prelude.{
  ℕ, zero, suc, ◌+◌, ◌-◌, ◌^◌, ◌≤◌, ◌<◌, ◌≡◌, refl, sym, ap, subst, ◌∙◌, arith, Bool, true, ◌⊎◌,
  List, [], ◌∷◌, some, inl, inr, Bool-cases, Option-cases, get_or, get_or-set_self, set, length,
  length-set, total, total-set, total-set_same, ◌==◌, if◌then◌else◌, lt→leb, le→leb, ==_of_ne,
}
use native.Mathlib.Decide.{dec_lt}
use xpu_kllm.Prelude.Words.{add32}
use xpu_kllm.Scheduler.{
  Request, zeroed_request, is_done, is_vacant, is_completed, Scheduler, Engines, first_slot,
  find_free_slot, admitted, submit, BatchConfig,
}
use xpu_kllm.Scheduler.Step.Account.{taken, over, IsTracked}

first_slot_lem :
    (p : Request → Bool) (rs : List Request) (k i : ℕ)
    → first_slot p rs k ≡ some i
    → (k ≤ i) × (i - k < length rs) × (p (get_or rs (i - k) zeroed_request) ≡ true)
unfolding first_slot
first_slot_lem p [] k i e = ground arith
first_slot_lem p (r ∷ rs) k i e = elim (Bool-cases (p r)) [
  | inl here ↦
      let at : k ≡ i = ground (arith, here) in
      let z : i - k ≡ 0 = omega arith in
      (omega arith, omega arith, ap (λ (j : ℕ). p (get_or (r ∷ rs) j zeroed_request)) z ∙ here)
  | inr further ↦
      let (le, lt, h) = first_slot_lem p rs (k + 1) i (ground (arith, further)) in
      let z : i - k ≡ suc (i - (k + 1)) = omega arith in
      (omega arith, omega arith, ap (λ (j : ℕ). p (get_or (r ∷ rs) j zeroed_request)) z ∙ h)
]

found :
    (p : Request → Bool) (rs : List Request) (i : ℕ)
    → first_slot p rs 0 ≡ some i
    → (i < length rs) × (p (get_or rs i zeroed_request) ≡ true)
found p rs i e =
    let (le, lt, h) = first_slot_lem p rs 0 i e in
    let z : i ≡ i - 0 = omega arith in
    (omega arith, ap (λ (j : ℕ). p (get_or rs j zeroed_request)) z ∙ h)

-- In an account without done requests every done slot is out of use.
over-get_or :
    (rs : List Request) (i : ℕ)
    → total over rs ≡ 0
    → i < length rs
    → over (get_or rs i zeroed_request) ≡ 0
over-get_or [] i z h = absurd (omega arith)
over-get_or (r ∷ rs) zero z h = omega arith
over-get_or (r ∷ rs) (suc i) z h = over-get_or rs i (omega arith) (omega arith)

idle_slot : (r : Request) → is_done r.phase ≡ true → over r ≡ 0 → taken r ≡ 0
unfolding over taken
idle_slot r d z = ground (arith, d)

zeroed_free : taken zeroed_request ≡ 0
unfolding taken
zeroed_free = refl

zeroed_over : over zeroed_request ≡ 0
unfolding over
zeroed_over = refl

find_cases :
    (rs rs' : List Request) (i : ℕ)
    → find_free_slot rs ≡ some (i, rs')
    → ((first_slot is_vacant rs 0 ≡ some i) × (rs' ≡ rs))
      ⊎ ((first_slot is_completed rs 0 ≡ some i) × (rs' ≡ set rs i zeroed_request))
unfolding find_free_slot
find_cases rs rs' i e = ground arith

-- The slot that is found is out of use, and finding it changes no account.
find_free_slot_lem :
    (rs rs' : List Request) (i : ℕ)
    → find_free_slot rs ≡ some (i, rs')
    → total over rs ≡ 0
    → (i < length rs')
      × (taken (get_or rs' i zeroed_request) ≡ 0)
      × (total taken rs' ≡ total taken rs)
      × (total over rs' ≡ 0)
      × (length rs' ≡ length rs)
find_free_slot_lem rs rs' i e z = elim (find_cases rs rs' i e) [
  | inl (at, same) ↦
      let (lt, d) = found is_vacant rs i at in
      rw same (
        lt,
        idle_slot (get_or rs i zeroed_request) (ground (arith, d)) (over-get_or rs i z lt),
        refl,
        z,
        refl,
      )
  | inr (at, same) ↦
      let (lt, d) = found is_completed rs i at in
      let free = idle_slot (get_or rs i zeroed_request) d (over-get_or rs i z lt) in
      rw same (
        omega (arith, length-set rs i zeroed_request),
        ap taken (get_or-set_self rs i zeroed_request zeroed_request lt) ∙ zeroed_free,
        total-set_same taken rs i zeroed_request zeroed_request (zeroed_free ∙ sym free),
        omega (
          arith,
          total-set over rs i zeroed_request zeroed_request lt,
          over-get_or rs i z lt,
          zeroed_over,
        ),
        length-set rs i zeroed_request,
      )
]

admitted_account :
    (id : ℕ) (prompt_tokens : List ℕ) (len response now : ℕ) (r : Request)
    → 0 < id
    → let r' = admitted id prompt_tokens len response now r in (taken r' ≡ 1) × (over r' ≡ 0)
unfolding taken over admitted
admitted_account id prompt_tokens len response now r h =
    rw (==_of_ne id 0 (omega arith)) (refl, refl)

module _ {F W : Type 0} (engines : Engines W) where
  -- The state after a submit that found slot `i` of `rs`.
  pub stored-IsTracked :
      (s s' : Scheduler F) (rs : List Request) (i : ℕ) (req : Request)
      → IsTracked s
      → find_free_slot s.requests ≡ some (i, rs)
      → s.active_count < s.cfg.max_requests
      → (taken req ≡ 1) × (over req ≡ 0)
      → s'.requests ≡ set rs i req
      → s'.active_count ≡ add32 s.active_count 1
      → s'.cfg ≡ s.cfg
      → IsTracked s' × (total taken s'.requests ≡ total taken s.requests + 1)
  stored-IsTracked s s' rs i req v e room (t, o) er ea ec =
      let (lt, free, same, clear, len) = find_free_slot_lem s.requests rs i e v.none_over in
      let more : total taken s'.requests ≡ total taken s.requests + 1 =
        omega (arith, ap (total taken) er, total-set taken rs i req zeroed_request lt) in
      (
        record {
          counted = omega (arith, more, ea, v.counted, v.small, room);
          none_over = omega (arith, ap (total over) er, total-set over rs i req zeroed_request lt);
          size =
              ap length er
              ∙ length-set rs i req
              ∙ len
              ∙ v.size
              ∙ sym (ap (λ (c : BatchConfig). c.max_requests) ec);
          small = subst (λ (c : BatchConfig). c.max_requests < 2 ^ 32) (sym ec) v.small;
        },
        more,
      )

  -- From an exact account, and while the next id has not wrapped round to 0: a submit that returns
  -- 0 leaves the number of slots in use, one that returns an id has put one more in use, and both
  -- keep the account exact.
  pub submit-IsTracked :
      (s : Scheduler F) (memory : Bool) (prompt_tokens : List ℕ) (len response : ℕ) (w : W)
      → IsTracked s
      → 0 < s.next_request_id
      → let (id, s', w') = submit engines memory prompt_tokens len response s w in
        IsTracked s'
        × (total taken s'.requests ≡ total taken s.requests + (if id == 0 then 0 else 1))
  unfolding submit
  submit-IsTracked s memory prompt_tokens len response w v h =
      elim (dec_lt s.active_count s.cfg.max_requests) [
        | no full ↦ rw (le→leb s.cfg.max_requests s.active_count (omega arith)) (v, omega arith)
        | yes room ↦ elim (Option-cases (find_free_slot s.requests)) [
          | inl nowhere ↦
              rw (lt→leb s.cfg.max_requests s.active_count room, nowhere) (v, omega arith)
          | inr ((i, rs), e) ↦ elim (Bool-cases memory) [
            | inl m ↦
                rw
                  (
                    lt→leb s.cfg.max_requests s.active_count room,
                    e,
                    m,
                    ==_of_ne s.next_request_id 0 (omega arith),
                  )
                  (stored-IsTracked s _ rs i _ v e room
                    (admitted_account s.next_request_id prompt_tokens len response
                      (engines.now_ns w).0 (get_or rs i zeroed_request) h)
                    refl refl refl)
            | inr m ↦
                rw (lt→leb s.cfg.max_requests s.active_count room, e, m)
                  (let (lt, free, same, clear, l) =
                      find_free_slot_lem s.requests rs i e v.none_over in
                    (
                      record {
                        counted = v.counted ∙ sym same;
                        none_over = clear;
                        size = l ∙ v.size;
                        small = v.small;
                      },
                      omega (arith, same),
                    ))
          ]
        ]
      ]
