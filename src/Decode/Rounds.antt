-- ===== src/Decode/Rounds.antt =====
-- The rounds of the decode loop: what each outcome changes, and the loop as a relation.
use xpu_kllm.Prelude.{
  ℕ, zero, suc, ◌+◌, ◌≤◌, ◌≡◌, ◌≢◌, refl, ap, ◌∙◌, arith, Bool, true, false, ◌&&◌, List, [], ◌∷◌,
  ◌++◌, take, length, length-append, inl, inr, Bool-cases, ltb, ◌==◌,
}
use xpu_kllm.Chardev.{Ret, Cmd}
use xpu_kllm.Response.{end_of_sequence}
use xpu_kllm.Dispatch.{decide}
use xpu_kllm.Sampling.{Floats, Params, sample_token}
use xpu_kllm.Decode.{
  max_sequence_len, Engines, Round, Loop, Outcome, token, ended, failed, infer, emitted, round,
  rounds,
}

-- The condition of the loop.
abbrev pub goes_on : {F E S : Type 0} → Params F → Loop F E S → Bool
goes_on params l = ltb l.generated params.max_tokens && ltb (length l.sequence) max_sequence_len

module _ {F E S : Type 0} (fl : Floats F) (ops : Engines F E) (ioctl : S → Cmd → Ret × S)
    (params : Params F) (envs : ℕ → Round F) where
  abbrev pub next : Loop F E S → Outcome × Loop F E S
  next l = round fl ops ioctl params (envs l.generated) l

  -- The loop from one state to another, with the tokens of its rounds.
  pub data Decodes : Loop F E S → List ℕ → Loop F E S → Type 0 where
    limit : (l : Loop F E S) → goes_on params l ≡ false → Decodes l [] l
    stop : (l l' : Loop F E S) → goes_on params l ≡ true → next l ≡ (ended, l') → Decodes l [] l'
    fail : (l l' : Loop F E S) → goes_on params l ≡ true → next l ≡ (failed, l') → Decodes l [] l'
    emit_token :
        (l l' l'' : Loop F E S) (t : ℕ) (ts : List ℕ)
        → goes_on params l ≡ true
        → next l ≡ (token t, l')
        → Decodes l' ts l''
        → Decodes l (t ∷ ts) l''

  -- What a round that emits a token changes.
  pub round_token :
      (l l' : Loop F E S) (t : ℕ)
      → next l ≡ (token t, l')
      → (l'.sequence ≡ l.sequence ++ (t ∷ []))
        × (l'.generated ≡ l.generated + 1)
        × (l'.response ≡ emitted fl ops ioctl l.response t)
        × (l'.stopped_eos ≡ l.stopped_eos)
        × (t ≢ params.eos_token_id)
  unfolding round
  round_token l l' t e =
      let target = decide l.dispatch (length l.sequence) true in
      let i = infer fl ops ioctl target.0 l.engines l.sequence l.result in
      elim (Bool-cases i.0) [
        | inr bad ↦ absurd (ground (arith, bad))
        | inl good ↦
            let tok : ℕ =
              sample_token fl (envs l.generated).chance (take i.1.vocab_size i.1.logits) params in
            elim (Bool-cases (tok == params.eos_token_id)) [
              | inl hit ↦ absurd (ground (arith, good, hit))
              | inr go ↦
                  let same : tok ≡ t = ground (arith, good, go) in
                  (
                    ground (arith, good, go),
                    ground (arith, good, go),
                    ground (arith, good, go),
                    ground (arith, good, go),
                    ground (arith, go, same),
                  )
            ]
      ]

  pub round_ended :
      (l l' : Loop F E S)
      → next l ≡ (ended, l')
      → (l'.sequence ≡ l.sequence)
        × (l'.generated ≡ l.generated)
        × (l'.response ≡ (end_of_sequence ioctl l.response).1)
        × (l'.stopped_eos ≡ true)
  unfolding round
  round_ended l l' e =
      let target = decide l.dispatch (length l.sequence) true in
      let i = infer fl ops ioctl target.0 l.engines l.sequence l.result in
      elim (Bool-cases i.0) [
        | inr bad ↦ absurd (ground (arith, bad))
        | inl good ↦
            let tok : ℕ =
              sample_token fl (envs l.generated).chance (take i.1.vocab_size i.1.logits) params in
            elim (Bool-cases (tok == params.eos_token_id)) [
              | inl hit ↦ (
                ground (arith, good, hit),
                ground (arith, good, hit),
                ground (arith, good, hit),
                ground (arith, good, hit),
              )
              | inr go ↦ absurd (ground (arith, good, go))
            ]
      ]

  pub round_failed :
      (l l' : Loop F E S)
      → next l ≡ (failed, l')
      → (l'.sequence ≡ l.sequence)
        × (l'.generated ≡ l.generated)
        × (l'.response ≡ l.response)
        × (l'.stopped_eos ≡ l.stopped_eos)
  unfolding round
  round_failed l l' e =
      let target = decide l.dispatch (length l.sequence) true in
      let i = infer fl ops ioctl target.0 l.engines l.sequence l.result in
      elim (Bool-cases i.0) [
        | inr bad ↦
            (ground (arith, bad), ground (arith, bad), ground (arith, bad), ground (arith, bad))
        | inl good ↦
            let tok : ℕ =
              sample_token fl (envs l.generated).chance (take i.1.vocab_size i.1.logits) params in
            elim (Bool-cases (tok == params.eos_token_id)) [
              | inl hit ↦ absurd (ground (arith, good, hit))
              | inr go ↦ absurd (ground (arith, good, go))
            ]
      ]

  -- Enough rounds end the loop.
  pub rounds-Decodes :
      (n : ℕ) (l : Loop F E S)
      → max_sequence_len ≤ length l.sequence + n
      → (ts : List ℕ) × Decodes l ts (rounds fl ops ioctl n params envs l)
  unfolding rounds
  rounds-Decodes zero l enough = ([], limit l (ground arith))
  rounds-Decodes (suc n) l enough = elim (Bool-cases (goes_on params l)) [
    | inr over ↦ rw over ([], limit l over)
    | inl more ↦
        elim (next l).0
            as (λ (o : Outcome).
              (next l).0 ≡ o
              → (ts : List ℕ) × Decodes l ts (rounds fl ops ioctl (suc n) params envs l)) [
                | token t ↦ λ e.
                    let l' = (next l).1 in
                    let this : next l ≡ (token t, l') = ap (λ (o : Outcome). (o, l')) e in
                    let longer : length l'.sequence ≡ length l.sequence + 1 =
                      ap length (round_token l l' t this).0 ∙ length-append l.sequence (t ∷ []) in
                    let (ts, rest) = rounds-Decodes n l' (omega (arith, enough, longer)) in
                    (
                      t ∷ ts,
                      rw (more, e, rounds)
                          (emit_token l l' (rounds fl ops ioctl n params envs l') t ts more this
                            rest),
                    )
                | ended ↦ λ e. (
                  [],
                  rw (more, e, rounds)
                      (stop l (next l).1 more (ap (λ (o : Outcome). (o, (next l).1)) e)),
                )
                | failed ↦ λ e. (
                  [],
                  rw (more, e, rounds)
                      (fail l (next l).1 more (ap (λ (o : Outcome). (o, (next l).1)) e)),
                )
              ]
          refl
  ]
