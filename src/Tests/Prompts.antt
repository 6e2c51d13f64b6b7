-- ===== src/Tests/Prompts.antt =====
-- The tokenizer's theorems for bytes that are their own tokens and one merge, of 1 and 2 to 300.
use xpu_kllm.Prelude.{
  ℕ, ◌+◌, ◌≤◌, ◌≡◌, ◌⊎◌, refl, arith, true, false, ◌&&◌, List, [], ◌∷◌, Option, none, some, length,
  ltb, ◌==◌, if◌then◌else◌,
}
use xpu_kllm.Ring.{Ring}
use xpu_kllm.Ring.Fifo.{fit}
use xpu_kllm.Ring.Inv.{IsValid}
use xpu_kllm.Ring.Refine.{contents}
use xpu_kllm.Tokenizer.{
  MergeVal, MergeState, merge_at, find_best, do_merge_pass, merge_loop, encode, tokenize,
}
use xpu_kllm.Tokenizer.Merge.{Settled, merge_loop_lem}
use xpu_kllm.Tokenizer.RoundTrip.{decode, IsFaithful, decode-encode}
use xpu_kllm.Tokenizer.Output.{tokenize_lem}
use xpu_kllm.Tests.Fixtures.{two_waiting, two_waiting-IsValid}

abbrev one_merge : ℕ → ℕ → Option MergeVal
one_merge x y =
    if (x == 1) && (y == 2) then some (record { merged_id = 300; priority = 5 }) else none

abbrev byte_token : ℕ → Option ℕ
byte_token b = if ltb b 256 then some b else none

abbrev token_bytes : ℕ → List ℕ
token_bytes t = if t == 300 then 1 ∷ 2 ∷ [] else t ∷ []

abbrev prompt : List ℕ
prompt = 1 ∷ 2 ∷ 1 ∷ []

abbrev unmerged : MergeState
unmerged = record { seq = prompt; merged_any = false }

merge_loop_lem_example :
    let seq' = (merge_loop one_merge 4 unmerged).seq in
    (length seq' ≤ 3) × (3 ≤ length seq' + 4) × (Settled one_merge seq' ⊎ (3 ≡ length seq' + 4))
merge_loop_lem_example = merge_loop_lem one_merge 4 unmerged

one_merge-IsFaithful : IsFaithful token_bytes one_merge
one_merge-IsFaithful x y v e = ground arith

byte_of_token : (b t : ℕ) → byte_token b ≡ some t → token_bytes t ≡ b ∷ []
byte_of_token b t e = ground arith

encoded : encode byte_token one_merge prompt ≡ some (300 ∷ 1 ∷ [])
unfolding encode merge_loop do_merge_pass find_best merge_at
encoded = refl

decode-encode_example : decode token_bytes (300 ∷ 1 ∷ []) ≡ prompt
decode-encode_example =
    decode-encode token_bytes one_merge one_merge-IsFaithful byte_token byte_of_token prompt
      (300 ∷ 1 ∷ []) (omega arith) encoded

tokenize_lem_example :
    (r' : Ring) × (tokenize byte_token one_merge true prompt (some two_waiting) ≡ (some 2, some r'))
    × IsValid 2 r'
    × (contents r' ≡ fit 3 (contents two_waiting) (300 ∷ 1 ∷ []))
tokenize_lem_example =
    tokenize_lem byte_token one_merge prompt two_waiting (300 ∷ 1 ∷ []) two_waiting-IsValid
      (omega arith) (omega arith) encoded
