-- ===== src/Tokenizer/RoundTrip.antt =====
-- Detokenizing: the tokens of a prompt stand for its bytes.
use xpu_kllm.Prelude.{
  ℕ, zero, suc, ◌+◌, ◌≤◌, ◌<◌, ◌≡◌, refl, ap, ◌∙◌, arith, false, List, [], ◌∷◌, ◌++◌, append_assoc,
  Option, some, inl, inr, length,
}
use xpu_kllm.Tokenizer.{
  MergeVal, MergeState, merge_at, do_merge_pass, merge_loop, max_merge_passes, max_seq_len,
  to_tokens, encode,
}
use xpu_kllm.Tokenizer.Scan.{candidate}
use xpu_kllm.Tokenizer.Merge.{do_merge_pass_lem}

-- The bytes that a sequence of tokens stands for, given those of each token.
unfoldable pub decode : (ℕ → List ℕ) → List ℕ → List ℕ
decode bytes [] = []
decode bytes (x ∷ xs) = bytes x ++ decode bytes xs

to_tokens_inversion :
    (byte_to_token : ℕ → Option ℕ) (b : ℕ) (bs : List ℕ) (len : ℕ) (toks : List ℕ)
    → len < max_seq_len
    → to_tokens byte_to_token (b ∷ bs) len ≡ some toks
    → (t : ℕ) × (rest : List ℕ) × (byte_to_token b ≡ some t)
      × (to_tokens byte_to_token bs (len + 1) ≡ some rest)
      × (toks ≡ t ∷ rest)
unfolding to_tokens
to_tokens_inversion byte_to_token b bs len toks h e = ground arith

encode_inversion :
    (byte_to_token : ℕ → Option ℕ) (merge_table : ℕ → ℕ → Option MergeVal) (buf toks : List ℕ)
    → encode byte_to_token merge_table buf ≡ some toks
    → (start : List ℕ) × (to_tokens byte_to_token buf 0 ≡ some start)
      × (toks
          ≡ (merge_loop merge_table max_merge_passes
              (record { seq = start; merged_any = false })).seq)
unfolding encode
encode_inversion byte_to_token merge_table buf toks e = ground arith

module _ (bytes : ℕ → List ℕ) (merge_table : ℕ → ℕ → Option MergeVal) where
  -- A merged token stands for the bytes of its two parts.
  abbrev pub IsFaithful : Type 0
  IsFaithful =
      (x y : ℕ) (v : MergeVal) → merge_table x y ≡ some v → bytes v.merged_id ≡ bytes x ++ bytes y

  module _ (faithful : IsFaithful) where
    decode-merge_at :
        (seq : List ℕ) (p : ℕ) (v : MergeVal)
        → candidate merge_table seq p ≡ some v
        → decode bytes (merge_at seq p v.merged_id) ≡ decode bytes seq
    unfolding decode merge_at
    decode-merge_at [] p v c = cc
    decode-merge_at (x ∷ []) p v c = refl
    decode-merge_at (x ∷ y ∷ r) zero v c =
        ap (λ (l : List ℕ). l ++ decode bytes r) (faithful x y v c)
        ∙ append_assoc (bytes x) (bytes y) (decode bytes r)
    decode-merge_at (x ∷ y ∷ r) (suc p) v c = ap (◌++◌ (bytes x)) (decode-merge_at (y ∷ r) p v c)

    -- The merges do not change the bytes that the sequence stands for.
    decode-merge_loop :
        (n : ℕ) (st : MergeState)
        → decode bytes (merge_loop merge_table n st).seq ≡ decode bytes st.seq
    unfolding merge_loop
    decode-merge_loop zero st = refl
    decode-merge_loop (suc n) st = elim (do_merge_pass_lem merge_table st) [
      | inl (stop, same, settled) ↦ rw (stop, same)
      | inr (go, any, merged) ↦ rw go (
          decode-merge_loop n (do_merge_pass merge_table st).1
          ∙ ap (decode bytes) merged.4
          ∙ decode-merge_at st.seq merged.0 merged.1 merged.2)
    ]

    module _ (byte_to_token : ℕ → Option ℕ) where
      decode-to_tokens :
          (single : (b t : ℕ) → byte_to_token b ≡ some t → bytes t ≡ b ∷ []) (bs : List ℕ) (len : ℕ)
          (toks : List ℕ)
          → length bs + len ≤ max_seq_len
          → to_tokens byte_to_token bs len ≡ some toks
          → decode bytes toks ≡ bs
      unfolding decode to_tokens
      decode-to_tokens single [] len toks h e = ground arith
      decode-to_tokens single (b ∷ bs) len toks h e =
          let (t, rest, at, more, eq) =
            to_tokens_inversion byte_to_token b bs len toks (omega arith) e in
          ap (decode bytes) eq
          ∙ ap (λ (l : List ℕ). l ++ decode bytes rest) (single b t at)
          ∙ ap (◌∷◌ b) (decode-to_tokens single bs (len + 1) rest (omega arith) more)

      -- Where every byte token stands for its byte and every merged token for the bytes of its
      -- parts, the tokens of a prompt of at most 2048 bytes stand for exactly the prompt.
      pub decode-encode :
          (single : (b t : ℕ) → byte_to_token b ≡ some t → bytes t ≡ b ∷ []) (buf toks : List ℕ)
          → length buf ≤ max_seq_len
          → encode byte_to_token merge_table buf ≡ some toks
          → decode bytes toks ≡ buf
      unfolding encode
      decode-encode single buf toks h e =
          let (start, at, eq) = encode_inversion byte_to_token merge_table buf toks e in
          ap (decode bytes) eq
          ∙ decode-merge_loop max_merge_passes (record { seq = start; merged_any = false })
          ∙ decode-to_tokens single buf 0 start (omega arith) at
