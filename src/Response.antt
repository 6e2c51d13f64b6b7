-- ===== src/Response.antt =====
-- userspace/reactor/kllm_response.c: generated tokens go back to the character device by ioctl, at
-- most 256 in a call. The file behind the descriptor is a state with an ioctl function; it is the
-- device of Chardev in Response.Device.
pub mod Device
use xpu_kllm.Prelude.{ℕ, zero, suc, ◌+◌, ◌-◌, List, [], ◌∷◌, Option, none, some, ltb, if◌then◌else◌}
use xpu_kllm.Prelude.Words.{add32, sub32}
use xpu_kllm.Chardev.{Ret, done, error, Cmd, emit_tokens, eos, slice}

-- What is left to send, at most 256.
abbrev pub batch_size : ℕ → ℕ → ℕ
batch_size sent count = let left = sub32 count sent in if ltb 256 left then 256 else left

-- A failed ioctl ends the call with its error.
unfoldable pub on_success : {S : Type 0} → Ret × S → (S → Option (Ret × S)) → Option (Ret × S)
on_success (error e, s) next = some (error e, s)
on_success (done n, s) next = next s

module _ {S : Type 0} (ioctl : S → Cmd → Ret × S) where
  -- The body of the loop of `kllm_response_emit`, `next` being the rounds that follow.
  unfoldable pub send_batch : S → List ℕ → ℕ → ℕ → (S → ℕ → Option (Ret × S)) → Option (Ret × S)
  unfolding on_success
  send_batch s tokens sent count next =
      let batch = batch_size sent count in
      on_success (ioctl s (emit_tokens batch (slice tokens sent batch)))
        (λ s'. next s' (add32 sent batch))

  -- `while (sent < count)`, with fuel; `none` means that the fuel ran out.
  unfoldable pub emit_from : ℕ → S → List ℕ → ℕ → ℕ → Option (Ret × S)
  unfolding send_batch
  emit_from zero s tokens sent count = none
  emit_from (suc fuel) s tokens sent count =
      let round =
        send_batch s tokens sent count (λ s' sent'. emit_from fuel s' tokens sent' count) in
      if ltb sent count then round else some (done 0, s)

  -- A round sends at least one token, so one round more than there are tokens is enough.
  unfoldable pub emit : S → List ℕ → ℕ → Option (Ret × S)
  unfolding emit_from
  emit s tokens count = emit_from (count + 1) s tokens 0 count

  unfoldable pub emit_one : S → ℕ → Option (Ret × S)
  unfolding emit
  emit_one s token = emit s (token ∷ []) 1

  unfoldable pub end_of_sequence : S → Ret × S
  end_of_sequence s =
      let (rc, s') = ioctl s eos in elim rc [ error e ↦ (error e, s') | done n ↦ (done 0, s') ]
