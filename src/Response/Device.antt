-- ===== src/Response/Device.antt =====
-- The response path into the character device.
use native.Mathlib.Nat.{sub-zero}
use native.Mathlib.Decide.{dec_lt}
use xpu_kllm.Prelude.{
  ℕ, zero, suc, ◌+◌, ◌-◌, ◌^◌, ◌≤◌, ◌<◌, ◌≡◌, ◌≢◌, refl, sym, ap, ap₂, ◌∙◌, arith, true, List,
  Option, none, some, get_or, lt→ltb, le→ltb,
}
use xpu_kllm.Chardev.Interface.{Kernel}
use xpu_kllm.Chardev.{Device, Ret, done, Cmd, emit_tokens, slice, resp_produce, emit_loop, ioctl}
use xpu_kllm.Chardev.Resp.{IsSound, waiting}
use xpu_kllm.Chardev.Emit.{waiting-emit_loop, emit_loop-IsSound}
use xpu_kllm.Ring.Fifo.{fit}
use xpu_kllm.Prelude.Words.{add32}
use xpu_kllm.Response.{batch_size, on_success, send_batch, emit_from, emit}

send_batch-ne-none :
    {S : Type 0} (ioctl : S → Cmd → Ret × S) (s : S) (tokens : List ℕ) (sent count : ℕ)
    (next : S → ℕ → Option (Ret × S))
    → ((s' : S) → next s' (add32 sent (batch_size sent count)) ≢ none)
    → send_batch ioctl s tokens sent count next ≢ none
unfolding send_batch
send_batch-ne-none ioctl s tokens sent count next h =
    let s' =
      (ioctl s
        (emit_tokens (batch_size sent count) (slice tokens sent (batch_size sent count)))).1 in
    ground (arith, h s')

batch_lem :
    (sent count : ℕ)
    → sent < count
    → count < 2 ^ 32
    → let b = batch_size sent count in
      (0 < b) × (b ≤ 256) × (sent + b ≤ count) × (add32 sent b ≡ sent + b)
batch_lem sent count lt h = ground arith

-- For any file the loop over fewer than 2 ^ 32 tokens comes to an end: fuel above the number of
-- tokens left to send is enough.
pub emit_from_total :
    {S : Type 0} (ioctl : S → Cmd → Ret × S) (fuel : ℕ) (s : S) (tokens : List ℕ) (sent count : ℕ)
    → count < 2 ^ 32
    → sent ≤ count
    → count - sent < fuel
    → emit_from ioctl fuel s tokens sent count ≢ none
unfolding emit_from
emit_from_total ioctl zero s tokens sent count h le m = elim m [ ]
emit_from_total ioctl (suc fuel) s tokens sent count h le m = elim (dec_lt sent count) [
  | no full ↦ rw (le→ltb sent count (omega arith)) (λ e. cc)
  | yes lt ↦
      let facts = batch_lem sent count lt h in
      rw (lt→ltb sent count lt) (
        send_batch-ne-none ioctl s tokens sent count
          (λ s' sent'. emit_from ioctl fuel s' tokens sent' count)
          (λ s'.
            emit_from_total ioctl fuel s' tokens (add32 sent (batch_size sent count)) count h
              (omega arith) (omega arith)))
]

module _ (kernel : Kernel) where
  -- The calls reach the device with the command copied.
  abbrev pub device_ioctl : Device → Cmd → Ret × Device
  device_ioctl d cmd = ioctl kernel d cmd true

  get_or-slice :
      (tokens : List ℕ) (a n i : ℕ)
      → i < n
      → get_or (slice tokens a n) i 0 ≡ get_or tokens (a + i) 0
  unfolding slice
  get_or-slice tokens a zero i h = absurd (omega arith)
  get_or-slice tokens a (suc n) zero h = ap (λ (k : ℕ). get_or tokens k 0) (omega arith)
  get_or-slice tokens a (suc n) (suc i) h =
      get_or-slice tokens (a + 1) n i (omega arith)
      ∙ ap (λ (k : ℕ). get_or tokens k 0) (omega arith)

  -- A batch in the command's own array, or in place among all tokens: the same loop.
  emit_loop-slice :
      (d : Device) (tokens : List ℕ) (a n i m : ℕ)
      → i + m ≤ n
      → emit_loop kernel d (slice tokens a n) i m ≡ emit_loop kernel d tokens (a + i) m
  unfolding emit_loop
  emit_loop-slice d tokens a n i zero h = refl
  emit_loop-slice d tokens a n i (suc m) h =
      emit_loop-slice (resp_produce kernel d (get_or (slice tokens a n) i 0)) tokens a n (i + 1) m
        (omega arith)
      ∙ ap₂ (λ (x k : ℕ). emit_loop kernel (resp_produce kernel d x) tokens k m)
          (get_or-slice tokens a n i (omega arith)) (omega arith)

  emit_loop-add :
      (d : Device) (tokens : List ℕ) (i m n : ℕ)
      → emit_loop kernel d tokens i (m + n)
        ≡ emit_loop kernel (emit_loop kernel d tokens i m) tokens (i + m) n
  unfolding emit_loop
  emit_loop-add d tokens i zero n =
      let e : i ≡ i + 0 = omega arith in
      let e' : 0 + n ≡ n = omega arith in ap₂ (emit_loop kernel d tokens) e e'
  emit_loop-add d tokens i (suc m) n =
      let e : suc m + n ≡ suc (m + n) = omega arith in
      ap (emit_loop kernel d tokens i) e
      ∙ emit_loop-add (resp_produce kernel d (get_or tokens i 0)) tokens (i + 1) m n
      ∙ ap
          (λ (k : ℕ).
            emit_loop kernel
              (emit_loop kernel (resp_produce kernel d (get_or tokens i 0)) tokens (i + 1) m) tokens
              k n)
          (omega arith)

  device_ioctl-emit :
      (d : Device) (b : ℕ) (tokens : List ℕ)
      → b ≤ 256
      → device_ioctl d (emit_tokens b tokens) ≡ (done 0, emit_loop kernel d tokens 0 b)
  unfolding ioctl
  device_ioctl-emit d b tokens h = rw (le→ltb 256 b h)

  send_batch-device :
      (d : Device) (tokens : List ℕ) (sent count : ℕ) (next : Device → ℕ → Option (Ret × Device))
      → batch_size sent count ≤ 256
      → send_batch device_ioctl d tokens sent count next
        ≡ next
            (emit_loop kernel d tokens sent (batch_size sent count))
            (add32 sent (batch_size sent count))
  unfolding send_batch on_success
  send_batch-device d tokens sent count next h =
      let b = batch_size sent count in
      ap (λ (p : Ret × Device). on_success p (λ d'. next d' (add32 sent b)))
        (device_ioctl-emit d b (slice tokens sent b) h)
      ∙ ap (λ (d' : Device). next d' (add32 sent b))
          (emit_loop-slice d tokens sent b 0 b (omega arith)
            ∙ ap (λ (k : ℕ). emit_loop kernel d tokens k b) (omega arith))

  -- From `sent` on, the batches put the remaining tokens into the device one by one.
  emit_from-emit_loop :
      (fuel : ℕ) (d : Device) (tokens : List ℕ) (sent count : ℕ)
      → count < 2 ^ 32
      → sent ≤ count
      → count - sent < fuel
      → emit_from device_ioctl fuel d tokens sent count
        ≡ some (done 0, emit_loop kernel d tokens sent (count - sent))
  unfolding emit_from emit_loop
  emit_from-emit_loop zero d tokens sent count h le m = elim m [ ]
  emit_from-emit_loop (suc fuel) d tokens sent count h le m = elim (dec_lt sent count) [
    | no full ↦
        let e : 0 ≡ count - sent = omega arith in
        rw (le→ltb sent count (omega arith))
          (ap (λ (k : ℕ). some (done 0, emit_loop kernel d tokens sent k)) e)
    | yes lt ↦
        let b = batch_size sent count in
        let facts = batch_lem sent count lt h in
        let d' = emit_loop kernel d tokens sent b in
        let e : b + (count - (sent + b)) ≡ count - sent = omega arith in
        rw (lt→ltb sent count lt) (
          send_batch-device d tokens sent count
            (λ s' sent'. emit_from device_ioctl fuel s' tokens sent' count) facts.1
          ∙ emit_from-emit_loop fuel d' tokens (add32 sent b) count h (omega arith) (omega arith)
          ∙ ap (λ (k : ℕ). some (done 0, emit_loop kernel d' tokens k (count - k))) facts.3
          ∙ ap (λ (r : Device). some (done 0, r))
              (sym (emit_loop-add d tokens sent b (count - (sent + b)))
                ∙ ap (emit_loop kernel d tokens sent) e))
  ]

  -- `kllm_response_emit` of fewer than 2 ^ 32 tokens into a device with a sound response ring comes
  -- to an end, returns 0, and does what one `kllm_resp_produce` for each token in order would do:
  -- the cut into batches of 256 does not show. Behind the waiting tokens stand as many of the new
  -- ones as fit; the rest is lost.
  pub emit_lem :
      {bits : ℕ} (d : Device) (tokens : List ℕ) (count : ℕ)
      → IsSound bits d
      → count < 2 ^ 32
      → (d' : Device) × (emit device_ioctl d tokens count ≡ some (done 0, d'))
        × (d' ≡ emit_loop kernel d tokens 0 count)
        × (waiting d' ≡ fit d.resp_mask (waiting d) (slice tokens 0 count))
        × IsSound bits d'
  unfolding emit
  emit_lem d tokens count v h = (
    emit_loop kernel d tokens 0 count,
    emit_from-emit_loop (count + 1) d tokens 0 count h (omega arith) (omega arith)
        ∙ ap (λ (k : ℕ). some (done 0, emit_loop kernel d tokens 0 k)) (sub-zero count),
    refl,
    waiting-emit_loop kernel d tokens 0 count v,
    emit_loop-IsSound kernel d tokens 0 count v,
  )
