-- ===== src/Tokenizer.antt =====
-- bpf/tokenizer.bpf.c: the byte-pair tokenizer behind write(). The two maps are functions: the
-- merge table, and the token of a byte. The scratch sequence is the list of its `len` tokens. The
-- bounds of the inner loops by MAX_SEQ_LEN, there for the BPF verifier, are never reached, since the
-- sequence is no longer than that. `bpf_loop` calls its callback at most as often as it is told,
-- and stops when the callback returns 1.
pub mod Scan
pub mod Merge
pub mod RoundTrip
pub mod Output
use xpu_kllm.Prelude.{
  ℕ, zero, suc, ◌+◌, ◌-◌, ◌^◌, bit_and, Bool, true, false, ◌||◌, List, [], ◌∷◌, ◌++◌, Option, none,
  some, length, set, ltb, leb, ◌==◌, if◌then◌else◌,
}
use xpu_kllm.Prelude.Words.{add32, sub32}
use xpu_kllm.Ring.{Ring}

pub record MergeVal : Type 0 where
  pub merged_id : ℕ
  pub priority : ℕ

-- `struct merge_state`.
pub record MergeState : Type 0 where
  pub seq : List ℕ
  pub merged_any : Bool

-- The locals of the scan for the best pair.
pub record Best : Type 0 where
  pub pos : ℕ
  pub priority : ℕ
  pub merged : ℕ
  pub found : Bool

abbrev pub max_prompt_len : ℕ
max_prompt_len = 4096

abbrev pub max_merge_passes : ℕ
max_merge_passes = 128

abbrev pub max_seq_len : ℕ
max_seq_len = 2048

abbrev pub no_pair : Best
no_pair = record { pos = 0; priority = 2 ^ 32 - 1; merged = 0; found = false }

-- The merged token goes to `pos`; the tokens right of the pair move left by one.
unfoldable pub merge_at : List ℕ → ℕ → ℕ → List ℕ
merge_at [] pos m = []
merge_at (x ∷ []) pos m = x ∷ []
merge_at (x ∷ y ∷ r) zero m = m ∷ r
merge_at (x ∷ y ∷ r) (suc pos) m = x ∷ merge_at (y ∷ r) pos m

-- One pair of the scan: a smaller priority replaces the best one.
unfoldable pub better : Option MergeVal → ℕ → Best → Best
better none i best = best
better (some v) i best =
    if ltb v.priority best.priority
    then record { pos = i; priority = v.priority; merged = v.merged_id; found = true }
    else best

module _ (merge_table : ℕ → ℕ → Option MergeVal) where
  unfoldable pub find_best : List ℕ → ℕ → Best → Best
  unfolding better
  find_best [] i best = best
  find_best (x ∷ []) i best = best
  find_best (x ∷ y ∷ r) i best = find_best (y ∷ r) (i + 1) (better (merge_table x y) i best)

  -- `do_merge_pass`: whether to stop, and the state.
  unfoldable pub do_merge_pass : MergeState → Bool × MergeState
  do_merge_pass st =
      let best = find_best st.seq 0 no_pair in
      if ltb (length st.seq) 2
      then (true, st)
      else if best.found
      then (false, record { seq = merge_at st.seq best.pos best.merged; merged_any = true })
      else (true, st)

  -- `bpf_loop(n, do_merge_pass, &state, 0)`.
  unfoldable pub merge_loop : ℕ → MergeState → MergeState
  merge_loop zero st = st
  merge_loop (suc n) st =
      let (stop, st') = do_merge_pass st in
      let rest = merge_loop n st' in if stop then st' else rest

-- Phase 1: the tokens of the bytes, as many as the sequence holds; `none` for a byte that the map
-- does not know. A byte is looked up before the test for a full sequence.
unfoldable pub to_tokens : (ℕ → Option ℕ) → List ℕ → ℕ → Option (List ℕ)
to_tokens byte_to_token [] len = some []
to_tokens byte_to_token (b ∷ bs) len =
    let rest = to_tokens byte_to_token bs (len + 1) in
    elim (byte_to_token b) [
      | none ↦ none
      | some tok ↦
          if leb max_seq_len len
          then some []
          else elim rest [ none ↦ none | some toks ↦ some (tok ∷ toks) ]
    ]

-- Phases 1 and 2: what a prompt of legal length is turned into.
unfoldable pub encode : (ℕ → Option ℕ) → (ℕ → ℕ → Option MergeVal) → List ℕ → Option (List ℕ)
unfolding to_tokens
encode byte_to_token merge_table buf = elim (to_tokens byte_to_token buf 0) [
  | none ↦ none
  | some toks ↦
      some (merge_loop merge_table max_merge_passes (record { seq = toks; merged_any = false })).seq
]

-- The loop of phase 3 over the slots and the local head, for the ring's mask and tail.
unfoldable pub fill : ℕ → ℕ → List ℕ → ℕ → List ℕ → List ℕ × ℕ
fill ring_mask tail slots head [] = (slots, head)
fill ring_mask tail slots head (x ∷ xs) =
    let next = bit_and (add32 head 1) ring_mask in
    let rest = fill ring_mask tail (set slots head x) next xs in
    if next == tail then (slots, head) else rest

-- Phase 3 on a ring with slots: the head is published once, behind all tokens.
unfoldable pub put_tokens : Ring → List ℕ → Ring
unfolding fill
put_tokens r toks =
    let (slots', head') = fill (sub32 r.slot_count 1) r.tail r.slots r.head toks in
    record r { slots = slots'; head = head'; seq_id = add32 r.seq_id 1 }

-- `kllm_tokenize`; `none` is -1. `scratch` tells whether the scratch map has its entry.
unfoldable pub tokenize :
    (ℕ → Option ℕ)
    → (ℕ → ℕ → Option MergeVal)
    → Bool
    → List ℕ
    → Option Ring
    → Option ℕ × Option Ring
unfolding encode put_tokens
tokenize byte_to_token merge_table scratch buf ring =
    if length buf == 0 || ltb max_prompt_len (length buf)
    then (none, ring)
    else if scratch
    then elim (encode byte_to_token merge_table buf) [
      | none ↦ (none, ring)
      | some toks ↦ elim ring [
        | none ↦ (some (length toks), none)
        | some r ↦
            if r.slot_count == 0
            then (none, some r)
            else (some (length toks), some (put_tokens r toks))
      ]
    ]
    else (none, ring)
