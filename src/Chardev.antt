-- ===== src/Chardev.antt =====
-- kernel/chardev/llm_prompt.c: the character device /dev/llm_prompt1. Outcomes that the kernel
-- decides (an allocation, a copy from or to user memory, what happened while a reader slept) are
-- arguments. The spin lock makes each section under it one step.
pub mod Interface
pub mod Resp
pub mod Read
pub mod Emit
pub mod Init
use Interface.{Kernel}
use xpu_kllm.Prelude.{
  ℕ, zero, suc, ◌+◌, ◌-◌, ◌*◌, ◌/◌, ◌%◌, ◌^◌, ◌≡◌, bit_and, Bool, true, false, ◌||◌, List, [], ◌∷◌,
  ◌++◌, Option, none, some, get_or, set, ltb, leb, ◌==◌, if◌then◌else◌,
}
use xpu_kllm.Prelude.Words.{u32, add32, sub32}
use xpu_kllm.Ring.{Ring, token_ring_magic, token_ring_version}

pub data Errno : Type 0 where
  efbig enomem efault eagain erestartsys einval enotty : Errno

-- A handler's result: a count or status, or a negative error number.
pub data Ret : Type 0 where
  done : ℕ → Ret
  error : Errno → Ret

-- `struct kllm_device`, less the wait queues, the lock and the registration.
pub record Device : Type 0 where
  pub token_ring : Option Ring
  pub resp_ring : List ℕ
  pub resp_head : ℕ
  pub resp_tail : ℕ
  pub resp_mask : ℕ

-- `struct kllm_emit_cmd` and the commands of `kllm_ioctl`; `other` is any number not known to it.
pub data Cmd : Type 0 where
  emit_tokens : ℕ → List ℕ → Cmd
  eos : Cmd
  other : Cmd

abbrev pub max_prompt_size : ℕ
max_prompt_size = 64 * 1024

abbrev pub ring_bytes : ℕ
ring_bytes = 4096 * 2 ^ 9

-- The header is four cache lines.
abbrev pub ring_hdr_size : ℕ
ring_hdr_size = 256

abbrev pub eos_sentinel : ℕ
eos_sentinel = 0xFFFF_FFFF

-- Memory that the kernel hands out filled with zeros.
pub zeroed : ℕ → List ℕ
zeroed zero = []
zeroed (suc n) = 0 ∷ zeroed n

-- `copy_to_user` of `n` entries from index `a` on.
unfoldable pub slice : List ℕ → ℕ → ℕ → List ℕ
slice slots a zero = []
slice slots a (suc n) = get_or slots a 0 ∷ slice slots (a + 1) n

-- `kllm_write`: accepts the bytes; the place where the tokenizer is to be called does nothing.
unfoldable pub write : ℕ → Bool → Bool → Ret
write count allocated copied =
    if count == 0
    then done 0
    else if ltb max_prompt_size count
    then error efbig
    else if allocated
    then (if copied then done count else error efault)
    else error enomem

-- `kllm_mmap`, up to `remap_pfn_range`, whose status is the last argument.
unfoldable pub mmap : ℕ → ℕ → Ret → Ret
mmap size pgoff remapped =
    if ltb ring_bytes size then error einval else if pgoff == 0 then remapped else error einval

pub record PollMask : Type 0 where
  pub readable : Bool
  pub writable : Bool

-- The copies of `kllm_read`, in one piece or round the end of the ring, and the new tail: the
-- result, what reached the user's buffer, and the device. `copied` and `copied'` tell whether the
-- copies succeed.
unfoldable pub copy_tokens : Device → ℕ → Bool → Bool → Ret × List ℕ × Device
unfolding slice
copy_tokens d to_copy copied copied' =
    let size = add32 d.resp_mask 1 in
    let after = record d { resp_tail = bit_and (add32 d.resp_tail to_copy) d.resp_mask } in
    let first = sub32 size d.resp_tail in
    let second = sub32 to_copy first in
    let front = slice d.resp_ring d.resp_tail first in
    if leb (add32 d.resp_tail to_copy) size
    then (if copied
        then (done (to_copy * 4), slice d.resp_ring d.resp_tail to_copy, after)
        else (error efault, [], d))
    else if copied
    then (if copied'
        then (done (to_copy * 4), front ++ slice d.resp_ring 0 second, after)
        else (error efault, front, d))
    else (error efault, [], d)

module _ (kernel : Kernel) where
  unfoldable pub resp_ring_count : Device → ℕ
  resp_ring_count d = kernel.circ_cnt d.resp_head d.resp_tail (add32 d.resp_mask 1)

  unfoldable pub resp_ring_space : Device → ℕ
  resp_ring_space d = kernel.circ_space d.resp_head d.resp_tail (add32 d.resp_mask 1)

  -- A token for which there is no space is dropped.
  unfoldable pub resp_produce : Device → ℕ → Device
  resp_produce d token_id =
      if ltb 0 (resp_ring_space d)
      then record d {
        resp_ring = set d.resp_ring d.resp_head token_id;
        resp_head = bit_and (add32 d.resp_head 1) d.resp_mask;
      }
      else d

  -- `kllm_read` from its first look at the count behind the wait.
  unfoldable pub read_tokens : Device → ℕ → Bool → Bool → Ret × List ℕ × Device
  unfolding resp_ring_count copy_tokens
  read_tokens d count copied copied' =
      let avail = resp_ring_count d in
      let wanted = u32 (count / 4) in
      copy_tokens d (if ltb avail wanted then avail else wanted) copied copied'

  -- `kllm_read`. `woken` is the device when the wait ends, `none` if a signal ended it.
  -- `count &= ~3` clears the two low bits.
  unfoldable pub read : Device → ℕ → Bool → Option Device → Bool → Bool → Ret × List ℕ × Device
  unfolding read_tokens
  read d count nonblock woken copied copied' =
      let aligned = count - count % 4 in
      if aligned == 0
      then (done 0, [], d)
      else if resp_ring_count d == 0
      then (if nonblock then (error eagain, [], d) else elim woken [
        | none ↦ (error erestartsys, [], d)
        | some d' ↦ read_tokens d' aligned copied copied'
      ])
      else read_tokens d aligned copied copied'

  unfoldable pub poll : Device → PollMask
  poll d = record { readable = ltb 0 (resp_ring_count d); writable = true }

  -- `for (i = 0; i < emit.count; i++) kllm_resp_produce(dev, emit.tokens[i])`, `n` rounds from `i`.
  unfoldable pub emit_loop : Device → List ℕ → ℕ → ℕ → Device
  emit_loop d tokens i zero = d
  emit_loop d tokens i (suc n) = emit_loop (resp_produce d (get_or tokens i 0)) tokens (i + 1) n

  -- `kllm_ioctl`; `copied` tells whether the command is copied from user memory.
  unfoldable pub ioctl : Device → Cmd → Bool → Ret × Device
  unfolding emit_loop
  ioctl d (emit_tokens count tokens) copied =
      if copied
      then (if ltb 256 count then (error einval, d) else (done 0, emit_loop d tokens 0 count))
      else (error efault, d)
  ioctl d eos copied = (done 0, resp_produce d eos_sentinel)
  ioctl d other copied = (error enotty, d)

  -- `kllm_alloc_token_ring`, given whether the pages could be had.
  unfoldable pub alloc_token_ring : Bool → Option Ring
  alloc_token_ring page =
      let slot_count = kernel.rounddown_pow_of_two ((ring_bytes - ring_hdr_size) / 4) in
      if page
      then some (record {
        magic = token_ring_magic;
        version = token_ring_version;
        slot_count = slot_count;
        head = 0;
        tail = 0;
        seq_id = 0;
        slots = zeroed slot_count;
      })
      else none

  -- `kllm_init`, given whether pages and buffer could be had and what `misc_register` returned.
  -- With an error no memory stays allocated, so there is no device.
  unfoldable pub init : Bool → Bool → Ret → Ret × Option Device
  unfolding alloc_token_ring
  init page buffer registered = elim (alloc_token_ring page) [
    | none ↦ (error enomem, none)
    | some ring ↦
        if buffer
        then elim registered [
          | error e ↦ (error e, none)
          | done n ↦ (
            done 0,
            some (record {
              token_ring = some ring;
              resp_ring = zeroed 4096;
              resp_head = 0;
              resp_tail = 0;
              resp_mask = 4096 - 1;
            }),
          )
        ]
        else (error enomem, none)
  ]
