-- ===== src/Tokenizer/Scan.antt =====
-- The scan of a merge pass finds the leftmost pair of the lowest rank.
use native.Mathlib.Nat.{zero-add}
use native.Mathlib.Decide.{dec_lt}
use xpu_kllm.Prelude.{
  ℕ, zero, suc, ◌+◌, ◌-◌, ◌^◌, ◌≤◌, ◌<◌, ◌≡◌, ◌⊎◌, inl, inr, refl, sym, ap, ◌∙◌, subst, arith, true,
  false, List, [], ◌∷◌, Option, none, some, Option-cases, lt→ltb, le→ltb,
}
use xpu_kllm.Tokenizer.{MergeVal, Best, no_pair, better, find_best}

module _ (merge_table : ℕ → ℕ → Option MergeVal) where
  -- The merge of the pair at a position, if the table has one.
  abbrev pub candidate : List ℕ → ℕ → Option MergeVal
  candidate [] p = none
  candidate (x ∷ []) p = none
  candidate (x ∷ y ∷ r) zero = merge_table x y
  candidate (x ∷ y ∷ r) (suc p) = candidate (y ∷ r) p

  -- What the scan from index `i` makes of the best pair so far: it stays if no pair beats it, and
  -- else gives way to the leftmost pair of the lowest priority.
  abbrev Kept : List ℕ → Best → Best → Type 0
  Kept seq best best' =
      (best' ≡ best)
      × ((q : ℕ) (w : MergeVal) → candidate seq q ≡ some w → best.priority ≤ w.priority)

  abbrev pub Beats : List ℕ → ℕ → MergeVal → Type 0
  Beats seq p v =
      (q : ℕ) (w : MergeVal)
      → candidate seq q ≡ some w
      → (v.priority ≤ w.priority) × (q < p → v.priority < w.priority)

  abbrev Replaced : List ℕ → ℕ → Best → Best → Type 0
  Replaced seq i best best' =
      (p : ℕ) × (v : MergeVal) × (candidate seq p ≡ some v)
      × (best' ≡ record { pos = i + p; priority = v.priority; merged = v.merged_id; found = true })
      × (v.priority < best.priority)
      × Beats seq p v

  abbrev Scanned : List ℕ → ℕ → Best → Best → Type 0
  Scanned seq i best best' = Kept seq best best' ⊎ Replaced seq i best best'

  -- The head pair gives no better merge, and the rest is scanned.
  head_loses :
      (x y : ℕ) (r : List ℕ) (i : ℕ) (best best' : Best)
      → ((w : MergeVal) → merge_table x y ≡ some w → best.priority ≤ w.priority)
      → Scanned (y ∷ r) (i + 1) best best'
      → Scanned (x ∷ y ∷ r) i best best'
  head_loses x y r i best best' h (inl (e, least)) = inl (e, go)
    where
      go : (q : ℕ) (w : MergeVal) → candidate (x ∷ y ∷ r) q ≡ some w → best.priority ≤ w.priority
      go zero w c = h w c
      go (suc q) w c = least q w c
  head_loses x y r i best best' h (inr (p, v, c, e, lt, beats)) =
      inr (suc p, v, c, ground arith, lt, go)
    where
      go : Beats (x ∷ y ∷ r) (suc p) v
      go zero w d = let le : best.priority ≤ w.priority = h w d in (omega arith, λ _. omega arith)
      go (suc q) w d = ((beats q w d).0, λ lt'. (beats q w d).1 (omega arith))

  -- The head pair becomes the best so far, and the rest is scanned.
  head_wins :
      (x y : ℕ) (r : List ℕ) (i : ℕ) (best best' : Best) (u : MergeVal)
      → merge_table x y ≡ some u
      → u.priority < best.priority
      → Scanned
          (y ∷ r)
          (i + 1)
          (record { pos = i; priority = u.priority; merged = u.merged_id; found = true })
          best'
      → Scanned (x ∷ y ∷ r) i best best'
  head_wins x y r i best best' u t lt (inl (e, least)) = inr (zero, u, t, ground arith, lt, go)
    where
      go : Beats (x ∷ y ∷ r) zero u
      go zero w d = (ground arith, λ lt'. elim lt' [ ])
      go (suc q) w d = (least q w d, λ lt'. absurd (omega arith))
  head_wins x y r i best best' u t lt (inr (p, v, c, e, lt', beats)) =
      inr (suc p, v, c, ground arith, omega arith, go)
    where
      go : Beats (x ∷ y ∷ r) (suc p) v
      go zero w d = (ground arith, λ _. ground arith)
      go (suc q) w d = ((beats q w d).0, λ lt''. (beats q w d).1 (omega arith))

  -- One round of the scan, given the scan of the rest from either best pair.
  pick :
      (x y : ℕ) (r : List ℕ) (i : ℕ) (best : Best)
      → Scanned (y ∷ r) (i + 1) best (find_best merge_table (y ∷ r) (i + 1) best)
      → ((u : MergeVal)
          → let new : Best = record {
            pos = i;
            priority = u.priority;
            merged = u.merged_id;
            found = true;
          } in
            Scanned (y ∷ r) (i + 1) new (find_best merge_table (y ∷ r) (i + 1) new))
      → Scanned
          (x ∷ y ∷ r)
          i
          best
          (find_best merge_table (y ∷ r) (i + 1) (better (merge_table x y) i best))
  unfolding better
  pick x y r i best old new = elim (Option-cases (merge_table x y)) [
    | inl e ↦
        subst
          (λ o.
            Scanned (x ∷ y ∷ r) i best (find_best merge_table (y ∷ r) (i + 1) (better o i best)))
          (sym e) (head_loses x y r i best _ (λ w c. cc) old)
    | inr (u, e) ↦
        subst
          (λ o.
            Scanned (x ∷ y ∷ r) i best (find_best merge_table (y ∷ r) (i + 1) (better o i best)))
          (sym e)
          (elim (dec_lt u.priority best.priority) [
            | yes lt ↦ rw (lt→ltb _ _ lt) (head_wins x y r i best _ u e lt (new u))
            | no ge ↦
                rw (le→ltb u.priority best.priority (omega arith))
                  (head_loses x y r i best _ (λ w c. ground arith) old)
          ])
  ]

  find_best-Scanned :
      (seq : List ℕ) (i : ℕ) (best : Best) → Scanned seq i best (find_best merge_table seq i best)
  unfolding find_best better
  find_best-Scanned [] i best = inl (refl, λ q w c. cc)
  find_best-Scanned (x ∷ []) i best = inl (refl, λ q w c. cc)
  find_best-Scanned (x ∷ y ∷ r) i best =
      pick x y r i best (find_best-Scanned (y ∷ r) (i + 1) best) (λ u.
        find_best-Scanned (y ∷ r) (i + 1)
          (record { pos = i; priority = u.priority; merged = u.merged_id; found = true }))

  -- The scan of `do_merge_pass`. If it finds nothing, no pair has a merge of a priority below
  -- 2 ^ 32 - 1. If it finds a pair, that pair has the merge that it names, no pair has one of a
  -- lower priority, and those left of it have only higher ones.
  pub find_best_lem :
      (seq : List ℕ)
      → let best = find_best merge_table seq 0 no_pair in
        ((best.found ≡ false)
          × ((q : ℕ) (w : MergeVal) → candidate seq q ≡ some w → 2 ^ 32 - 1 ≤ w.priority))
        ⊎ ((best.found ≡ true)
            × (v : MergeVal) × (candidate seq best.pos ≡ some v)
            × (v.merged_id ≡ best.merged)
            × Beats seq best.pos v)
  find_best_lem seq = elim (find_best-Scanned seq 0 no_pair) [
    | inl (e, least) ↦ inl (ap (λ (b : Best). b.found) e, least)
    | inr (p, v, c, e, lt, beats) ↦
        let at : p ≡ (find_best merge_table seq 0 no_pair).pos =
          sym (ap (λ (b : Best). b.pos) e ∙ zero-add p) in
        inr (
          ap (λ (b : Best). b.found) e,
          v,
          subst (λ (k : ℕ). candidate seq k ≡ some v) at c,
          sym (ap (λ (b : Best). b.merged) e),
          subst (λ (k : ℕ). Beats seq k v) at beats,
        )
  ]
