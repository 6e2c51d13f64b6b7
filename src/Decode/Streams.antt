-- ===== src/Decode/Streams.antt =====
-- What a run of the decode loop streams to the response path.
use xpu_kllm.Prelude.{
  ℕ, zero, suc, ◌+◌, ◌≤◌, ◌<◌, ◌≡◌, ◌≢◌, refl, sym, ap, ◌∙◌, arith, true, false, List, [], ◌∷◌,
  ◌++◌, append-nil, append_assoc, take, get_or, length, length-append, length-take, none, some, inl,
  inr, Bool-cases, ==_of_ne,
}
use xpu_kllm.Chardev.{Ret, Cmd}
use xpu_kllm.Response.{emit_one, end_of_sequence}
use xpu_kllm.Response.Device.{emit_from_total}
use xpu_kllm.Dispatch.{Dispatch}
use xpu_kllm.Sampling.{Floats, Params}
use xpu_kllm.Decode.{max_sequence_len, Engines, Round, Loop, emitted, rounds, start, finish, run}
use xpu_kllm.Decode.Rounds.{
  Decodes, limit, stop, fail, emit_token, round_token, round_ended, round_failed, rounds-Decodes,
}

-- No token of the list is `e`.
abbrev pub Avoids : ℕ → List ℕ → Type 0
Avoids e ts = (j : ℕ) → j < length ts → get_or ts j 0 ≢ e

Avoids-cons : (e t : ℕ) (ts : List ℕ) → t ≢ e → Avoids e ts → Avoids e (t ∷ ts)
Avoids-cons e t ts h hs zero lt = h
Avoids-cons e t ts h hs (suc j) lt = hs j (omega arith)

module _ {F E S : Type 0} (fl : Floats F) (ops : Engines F E) (ioctl : S → Cmd → Ret × S)
    (params : Params F) (envs : ℕ → Round F) where
  -- The response path after tokens were emitted one by one.
  abbrev pub emitted_all : S → List ℕ → S
  emitted_all s [] = s
  emitted_all s (t ∷ ts) = emitted_all (emitted fl ops ioctl s t) ts

  -- The emission of one token always has a result.
  emit_one_total : (s : S) (t : ℕ) → emit_one ioctl s t ≢ none
  unfolding emit_one
  emit_one_total s t =
      emit_from_total ioctl (1 + 1) s (t ∷ []) 0 1 (omega arith) (omega arith) (omega arith)

  -- From `l`, with tokens `ts`, to the state `l'` behind the loop.
  pub record Streamed (l : Loop F E S) (ts : List ℕ) (l' : Loop F E S) : Type 0 where
    pub sequence : l'.sequence ≡ l.sequence ++ ts
    pub generated : l'.generated ≡ l.generated + length ts
    pub at_most : l.generated ≤ params.max_tokens → l'.generated ≤ params.max_tokens
    pub in_buffer : length l.sequence ≤ max_sequence_len → length l'.sequence ≤ max_sequence_len
    pub response :
        (finish fl ops ioctl l').response ≡ (end_of_sequence ioctl (emitted_all l.response ts)).1
    pub no_eos : Avoids params.eos_token_id ts

  -- A loop that ends with the tokens it had.
  ends_here :
      (l l' : Loop F E S)
      → l'.sequence ≡ l.sequence
      → l'.generated ≡ l.generated
      → (finish fl ops ioctl l').response ≡ (end_of_sequence ioctl l.response).1
      → Streamed l [] l'
  ends_here l l' es eg er = record {
    sequence = es ∙ sym (append-nil l.sequence);
    generated = omega (arith, eg);
    at_most = λ h. omega (arith, eg, h);
    in_buffer = λ h. omega (arith, ap length es, h);
    response = er;
    no_eos = λ j lt. absurd (omega arith);
  }

  -- `finish` signals the end unless the loop did.
  finish_running :
      (l : Loop F E S)
      → l.stopped_eos ≡ false
      → (finish fl ops ioctl l).response ≡ (end_of_sequence ioctl l.response).1
  unfolding finish
  finish_running l e = rw e refl

  finish_stopped :
      (l : Loop F E S) → l.stopped_eos ≡ true → (finish fl ops ioctl l).response ≡ l.response
  unfolding finish
  finish_stopped l e = rw e refl

  Decodes-Streamed :
      (l l' : Loop F E S) (ts : List ℕ)
      → l.stopped_eos ≡ false
      → Decodes fl ops ioctl params envs l ts l'
      → Streamed l ts l'
  Decodes-Streamed l l' ts running (limit l0 over) =
      ends_here l0 l0 refl refl (finish_running l0 running)
  Decodes-Streamed l l' ts running (stop l0 l1 more e) =
      let (es, eg, er, eo) = round_ended fl ops ioctl params envs l0 l1 e in
      ends_here l0 l1 es eg (finish_stopped l1 eo ∙ er)
  Decodes-Streamed l l' ts running (fail l0 l1 more e) =
      let (es, eg, er, eo) = round_failed fl ops ioctl params envs l0 l1 e in
      ends_here l0 l1 es eg
        (finish_running l1 (eo ∙ running) ∙ ap (λ (s : S). (end_of_sequence ioctl s).1) er)
  Decodes-Streamed l l' ts running (emit_token l0 l1 l2 t rest more e d) =
      let (es, eg, er, eo, ne) = round_token fl ops ioctl params envs l0 l1 t e in
      let r = Decodes-Streamed l1 l2 rest (eo ∙ running) d in
      let longer : length l1.sequence ≡ length l0.sequence + 1 =
        ap length es ∙ length-append l0.sequence (t ∷ []) in
      record {
        sequence =
            r.sequence ∙ ap (λ (q : List ℕ). q ++ rest) es ∙ append_assoc l0.sequence (t ∷ []) rest;
        generated = omega (arith, r.generated, eg);
        at_most = λ h. r.at_most (ground (arith, eg, more));
        in_buffer = λ h. r.in_buffer (ground (arith, longer, more));
        response = r.response ∙ ap (λ (s : S). (end_of_sequence ioctl (emitted_all s rest)).1) er;
        no_eos = Avoids-cons params.eos_token_id t rest ne r.no_eos;
      }

  finish_keeps :
      (l : Loop F E S)
      → ((finish fl ops ioctl l).sequence ≡ l.sequence)
        × ((finish fl ops ioctl l).generated ≡ l.generated)
  unfolding finish
  finish_keeps l = elim (Bool-cases l.stopped_eos) [
    | inl e ↦ rw e (refl, refl)
    | inr e ↦ rw e (refl, refl)
  ]

  -- The loop of a run ends by its own condition, at the end-of-sequence token or at a failed
  -- inference, never because the bound of 32768 rounds is used up: a run for a prompt that is not
  -- empty gives what the unbounded loop reaches.
  pub run-Decodes :
      (e : E) (d : Dispatch F) (s : S) (prompt : List ℕ)
      → 0 < length prompt
      → (ts : List ℕ) × (l' : Loop F E S) × Decodes fl ops ioctl params envs
          (start fl ops ioctl e d s prompt)
          ts
          l'
        × (run fl ops ioctl params envs e d s prompt ≡ some (finish fl ops ioctl l'))
  unfolding run
  run-Decodes e d s prompt h =
      let l = start fl ops ioctl e d s prompt in
      let (ts, r) = rounds-Decodes fl ops ioctl params envs max_sequence_len l (omega arith) in
      (
        ts,
        rounds fl ops ioctl max_sequence_len params envs l,
        r,
        rw (==_of_ne (length prompt) 0 (omega (arith, h))) refl,
      )

  -- A run for a prompt that is not empty ends, whatever the engines and the response path do, with
  -- tokens for which: the sequence is the prompt, cut at 32768 tokens, followed by the tokens, and
  -- is not longer than that; there are at most `max_tokens` of them, none is the end-of-sequence
  -- token, and their number is the count that is returned; and the response path has got each of
  -- them once, in this order, and then one end of sequence.
  pub run_lem :
      (e : E) (d : Dispatch F) (s : S) (prompt : List ℕ)
      → 0 < length prompt
      → (l : Loop F E S) × (ts : List ℕ) × (run fl ops ioctl params envs e d s prompt ≡ some l)
        × (l.sequence ≡ take max_sequence_len prompt ++ ts)
        × (length l.sequence ≤ max_sequence_len)
        × (l.generated ≡ length ts)
        × (length ts ≤ params.max_tokens)
        × Avoids params.eos_token_id ts
        × (l.response ≡ (end_of_sequence ioctl (emitted_all s ts)).1)
  unfolding run start
  run_lem e d s prompt h =
      let l = start fl ops ioctl e d s prompt in
      let (ts, l', r, result) = run-Decodes e d s prompt h in
      let streamed = Decodes-Streamed l l' ts refl r in
      let (es, eg) = finish_keeps l' in
      let cut : length (take max_sequence_len prompt) ≤ max_sequence_len =
        omega (arith, length-take max_sequence_len prompt) in
      (
        finish fl ops ioctl l',
        ts,
        result,
        es ∙ streamed.sequence,
        omega (arith, ap length es, streamed.in_buffer cut),
        eg ∙ streamed.generated ∙ omega arith,
        omega (arith, streamed.generated, streamed.at_most (omega arith)),
        streamed.no_eos,
        streamed.response,
      )
