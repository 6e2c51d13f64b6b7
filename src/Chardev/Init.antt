-- ===== src/Chardev/Init.antt =====
-- `kllm_alloc_token_ring` and `kllm_init`: what a loaded module starts from.
use xpu_kllm.Prelude.{
  ℕ, zero, suc, ◌-◌, ◌/◌, ◌^◌, ◌<◌, ◌≡◌, refl, ap, ◌∙◌, arith, Bool, true, false, ◌⊎◌, List, [],
  none, some, length,
}
use native.Mathlib.Nat.{mod_self}
use xpu_kllm.Prelude.Words.{two-pow_pos}
use xpu_kllm.Ring.{Ring, token_ring_magic, token_ring_version}
use xpu_kllm.Ring.Inv.{IsValid}
use xpu_kllm.Ring.Refine.{contents, length-contents}
use xpu_kllm.Chardev.Interface.{Kernel}
use xpu_kllm.Chardev.{
  Device, Ret, done, error, Errno, enomem, zeroed, ring_bytes, ring_hdr_size, init,
}
use xpu_kllm.Chardev.Resp.{as_ring, IsSound, waiting}

length-zeroed : (n : ℕ) → length (zeroed n) ≡ n
unfolding zeroed
length-zeroed zero = refl
length-zeroed (suc n) = ap suc (length-zeroed n)

nil_of_length : (l : List ℕ) → length l ≡ 0 → l ≡ []
nil_of_length l h = ground arith

-- A ring of `2 ^ bits` zeroed slots.
abbrev blank : ℕ → ℕ → ℕ → Ring
blank magic version c = record {
  magic = magic;
  version = version;
  slot_count = c;
  head = 0;
  tail = 0;
  seq_id = 0;
  slots = zeroed c;
}

blank-IsValid :
    (bits magic version c : ℕ) → bits < 32 → c ≡ 2 ^ bits → IsValid bits (blank magic version c)
blank-IsValid bits magic version c h e =
    let z : 0 < 2 ^ bits = two-pow_pos bits in
    record {
      small = h;
      power = e;
      head_in = omega arith;
      tail_in = omega arith;
      storage = length-zeroed c;
    }

contents-blank : (magic version c : ℕ) → contents (blank magic version c) ≡ []
contents-blank magic version c =
    nil_of_length (contents (blank magic version c))
      (length-contents (blank magic version c) ∙ grind (arith, mod_self c))

module _ (kernel : Kernel) where
  slots_of_page : kernel.rounddown_pow_of_two ((ring_bytes - ring_hdr_size) / 4) ≡ 2 ^ 18
  slots_of_page =
      kernel.rounddown_lem 18 ((ring_bytes - ring_hdr_size) / 4) (omega arith) (omega arith)

  abbrev fresh_ring : Ring
  fresh_ring =
      blank token_ring_magic token_ring_version
        (kernel.rounddown_pow_of_two ((ring_bytes - ring_hdr_size) / 4))

  abbrev fresh_device : Device
  fresh_device = record {
    token_ring = some fresh_ring;
    resp_ring = zeroed 4096;
    resp_head = 0;
    resp_tail = 0;
    resp_mask = 4096 - 1;
  }

  -- When pages and buffer are there and the device is registered, `kllm_init` returns 0 and leaves
  -- an empty token ring of 2 ^ 18 slots and an empty response ring of 2 ^ 12, both well formed.
  pub init_lem :
      (n : ℕ)
      → (d : Device) × (r : Ring) × (init kernel true true (done n) ≡ (done 0, some d))
        × (d.token_ring ≡ some r)
        × IsValid 18 r
        × (contents r ≡ [])
        × IsSound 12 d
        × (waiting d ≡ [])
  unfolding init as_ring waiting
  init_lem n = (
    fresh_device,
    fresh_ring,
    refl,
    refl,
    blank-IsValid 18 token_ring_magic token_ring_version _ (omega arith) slots_of_page,
    contents-blank token_ring_magic token_ring_version _,
    blank-IsValid 12 0 0 4096 (omega arith) refl,
    contents-blank 0 0 4096,
  )

  -- In every other case it returns an error and keeps no device: out of memory, or the error of
  -- the registration.
  pub init_fails :
      (page buffer : Bool) (registered : Ret)
      → ((page ≡ false) ⊎ (buffer ≡ false)
          → init kernel page buffer registered ≡ (error enomem, none))
        × ((e : Errno)
            → page ≡ true
            → buffer ≡ true
            → registered ≡ error e
            → init kernel page buffer registered ≡ (error e, none))
  unfolding init
  init_fails page buffer registered = (λ h. ground arith, λ e p b r. ground arith)
