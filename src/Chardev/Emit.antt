-- ===== src/Chardev/Emit.antt =====
-- `kllm_ioctl`: batches of tokens and the end of a sequence, as the readers see them.
use xpu_kllm.Prelude.{
  ℕ, zero, suc, ◌+◌, ◌≡◌, refl, sym, ap₂, ◌∙◌, arith, Bool, true, List, [], ◌∷◌, get_or, ltb,
  le→ltb, if◌then◌else◌, lt→ltb,
}
use native.Mathlib.Decide.{dec_lt}
use xpu_kllm.Ring.Fifo.{fit, fit_nil, fit_cons}
use xpu_kllm.Chardev.Interface.{Kernel}
use xpu_kllm.Chardev.{
  Device, done, error, einval, emit_tokens, eos, eos_sentinel, slice, resp_produce, emit_loop,
  ioctl,
}
use xpu_kllm.Chardev.Resp.{
  IsSound, waiting, resp_produce-IsSound, waiting-resp_produce, resp_mask-resp_produce,
}

module _ (kernel : Kernel) {bits : ℕ} where
  pub emit_loop-IsSound :
      (d : Device) (tokens : List ℕ) (i n : ℕ)
      → IsSound bits d
      → IsSound bits (emit_loop kernel d tokens i n)
  unfolding emit_loop
  emit_loop-IsSound d tokens i zero v = v
  emit_loop-IsSound d tokens i (suc n) v =
      emit_loop-IsSound (resp_produce kernel d (get_or tokens i 0)) tokens (i + 1) n
        (resp_produce-IsSound kernel d v (get_or tokens i 0))

  pub waiting-emit_loop :
      (d : Device) (tokens : List ℕ) (i n : ℕ)
      → IsSound bits d
      → waiting (emit_loop kernel d tokens i n) ≡ fit d.resp_mask (waiting d) (slice tokens i n)
  unfolding emit_loop slice
  waiting-emit_loop d tokens i zero v = sym (fit_nil d.resp_mask (waiting d))
  waiting-emit_loop d tokens i (suc n) v =
      waiting-emit_loop (resp_produce kernel d x) tokens (i + 1) n
        (resp_produce-IsSound kernel d v x)
      ∙ ap₂ (λ (m : ℕ) (q : List ℕ). fit m q (slice tokens (i + 1) n))
          (resp_mask-resp_produce kernel d x) (waiting-resp_produce kernel d v x)
      ∙ fit_cons d.resp_mask x (waiting d) (slice tokens (i + 1) n)
    where
      x : ℕ
      x = get_or tokens i 0

  -- `kllm_ioctl` on a device with a sound response ring, with a batch that it can read: a count
  -- above 256 is refused and changes nothing; else the call returns 0, and behind the tokens that
  -- wait stand the batch's, as many as fit. The ring stays sound.
  pub ioctl-emit :
      (d : Device) (count : ℕ) (tokens : List ℕ)
      → IsSound bits d
      → let (rc, d') = ioctl kernel d (emit_tokens count tokens) true in
        IsSound bits d'
        × (rc ≡ (if ltb 256 count then error einval else done 0))
        × (waiting d' ≡ (
            if ltb 256 count
            then waiting d
            else fit d.resp_mask (waiting d) (slice tokens 0 count)))
  unfolding ioctl
  ioctl-emit d count tokens v = elim (dec_lt 256 count) [
    | yes h ↦ rw (lt→ltb 256 count h) (v, refl, refl)
    | no h ↦
        rw (le→ltb 256 count (omega arith))
          (emit_loop-IsSound d tokens 0 count v, refl, waiting-emit_loop d tokens 0 count v)
  ]

  -- The end of a sequence is one more token of a sound response ring, the sentinel, and is dropped
  -- like any other where the ring is full: the call returns 0 all the same.
  pub ioctl-eos :
      (d : Device) (copied : Bool)
      → IsSound bits d
      → let (rc, d') = ioctl kernel d eos copied in
        (rc ≡ done 0)
        × IsSound bits d'
        × (waiting d' ≡ fit d.resp_mask (waiting d) (eos_sentinel ∷ []))
  unfolding ioctl
  ioctl-eos d copied v = (
    refl,
    resp_produce-IsSound kernel d v eos_sentinel,
    waiting-resp_produce kernel d v eos_sentinel
        ∙ sym (fit_nil d.resp_mask _)
        ∙ fit_cons d.resp_mask eos_sentinel (waiting d) [],
  )
