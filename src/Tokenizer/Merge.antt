-- ===== src/Tokenizer/Merge.antt =====
-- Merge passes: what one changes, and when the passes end.
use xpu_kllm.Prelude.{
  ℕ, zero, suc, ◌+◌, ◌-◌, ◌^◌, ◌≤◌, ◌<◌, ◌≡◌, ◌⊎◌, inl, inr, refl, sym, ap, ◌∙◌, arith, true, false,
  List, [], ◌∷◌, Option, some, lt→ltb, le→ltb, length,
}
use native.Mathlib.Decide.{dec_lt}
use xpu_kllm.Tokenizer.{
  MergeVal, MergeState, no_pair, merge_at, find_best, do_merge_pass, merge_loop,
}
use xpu_kllm.Tokenizer.Scan.{candidate, Beats, find_best_lem}

module _ (merge_table : ℕ → ℕ → Option MergeVal) where
  -- No pair of the sequence has a merge that the scan would take.
  abbrev pub Settled : List ℕ → Type 0
  Settled seq =
      (q : ℕ) (w : MergeVal) → candidate merge_table seq q ≡ some w → 2 ^ 32 - 1 ≤ w.priority

  length-merge_at :
      (seq : List ℕ) (p m : ℕ) (v : MergeVal)
      → candidate merge_table seq p ≡ some v
      → length (merge_at seq p m) + 1 ≡ length seq
  unfolding merge_at
  length-merge_at [] p m v c = cc
  length-merge_at (x ∷ []) p m v c = cc
  length-merge_at (x ∷ y ∷ r) zero m v c = omega arith
  length-merge_at (x ∷ y ∷ r) (suc p) m v c = omega (arith, length-merge_at (y ∷ r) p m v c)

  short-Settled : (seq : List ℕ) → length seq < 2 → Settled seq
  short-Settled [] h q w c = cc
  short-Settled (x ∷ []) h q w c = cc
  short-Settled (x ∷ y ∷ r) h q w c = absurd (omega arith)

  -- What a pass does when it does not stop: the leftmost pair of the lowest priority is merged.
  abbrev pub Merged : List ℕ → List ℕ → Type 0
  Merged seq seq' =
      (p : ℕ) × (v : MergeVal) × (candidate merge_table seq p ≡ some v)
      × Beats merge_table seq p v
      × (seq' ≡ merge_at seq p v.merged_id)

  -- A merge pass either stops with the sequence as it was, when no pair of it has a merge of a
  -- priority below 2 ^ 32 - 1, or merges exactly the leftmost pair of the lowest priority.
  pub do_merge_pass_lem :
      (st : MergeState)
      → let (stop, st') = do_merge_pass merge_table st in
        ((stop ≡ true) × (st' ≡ st) × Settled st.seq)
        ⊎ ((stop ≡ false) × (st'.merged_any ≡ true) × Merged st.seq st'.seq)
  unfolding do_merge_pass
  do_merge_pass_lem st = elim (dec_lt (length st.seq) 2) [
    | yes short ↦ rw (lt→ltb (length st.seq) 2 short) (inl (refl, refl, short-Settled st.seq short))
    | no long ↦
        rw (le→ltb (length st.seq) 2 (omega arith)) (elim (find_best_lem merge_table st.seq) [
          | inl (e, least) ↦ rw e (inl (refl, refl, least))
          | inr (e, v, c, m, beats) ↦ rw e (
              inr (
                refl,
                refl,
                (
                  (find_best merge_table st.seq 0 no_pair).pos,
                  v,
                  c,
                  beats,
                  ap (merge_at st.seq (find_best merge_table st.seq 0 no_pair).pos) (sym m),
                ),
              ))
        ])
  ]

  length-Merged : (seq seq' : List ℕ) → Merged seq seq' → length seq' + 1 ≡ length seq
  length-Merged seq seq' (p, v, c, beats, e) =
      ap (λ (l : List ℕ). length l + 1) e ∙ length-merge_at seq p v.merged_id v c

  -- After up to `n` passes no pair is left to merge, or each of the `n` passes has made one merge.
  -- A merge shortens the sequence by one, so a loop of at most `n` passes takes no more than `n`
  -- tokens away.
  pub merge_loop_lem :
      (n : ℕ) (st : MergeState)
      → let seq' = (merge_loop merge_table n st).seq in
        (length seq' ≤ length st.seq)
        × (length st.seq ≤ length seq' + n)
        × (Settled seq' ⊎ (length st.seq ≡ length seq' + n))
  unfolding merge_loop
  merge_loop_lem zero st = (omega arith, omega arith, inr (omega arith))
  merge_loop_lem (suc n) st = elim (do_merge_pass_lem st) [
    | inl (stop, same, settled) ↦ rw (stop, same) (omega arith, omega arith, inl settled)
    | inr (go, any, merged) ↦
        let ih = merge_loop_lem n (do_merge_pass merge_table st).1 in
        let shorter = length-Merged st.seq (do_merge_pass merge_table st).1.seq merged in
        rw go (
          omega arith,
          omega arith,
          elim ih.2 [ inl settled ↦ inl settled | inr e ↦ inr (omega arith) ],
        )
  ]
