-- ===== src/Index/Probing.antt =====
-- Walks along the positions of a key, before and after one entry is written.
use xpu_kllm.Prelude.{
  ℕ, zero, suc, ◌+◌, ◌<◌, ◌≡◌, refl, sym, ap, ◌∙◌, arith, true, false, List, [], ◌∷◌, some, ◌⊎◌,
  inl, inr, Bool-cases, get_or, set, get_or-set_self, get_or-set_ne, length,
}
use native.Mathlib.Decide.{ℕ_discrete}
use xpu_kllm.Index.{
  Entry, empty_entry, is_empty, hash_eq, found, vacant, position, probe, first_empty,
}

abbrev pub at : List Entry → ℕ → Entry
at entries pos = get_or entries pos empty_entry

pub hash_eq_refl : (h : List ℕ) → hash_eq h h ≡ true
unfolding hash_eq
hash_eq_refl [] = refl
hash_eq_refl (x ∷ xs) = ground (arith, hash_eq_refl xs)

module _ (entries : List Entry) (m : ℕ) where
  -- What a walk has seen at the position where it ends.
  pub found_inversion :
      (h : List ℕ) (b i n q : ℕ)
      → probe entries m h b i n ≡ found q
      → (is_empty (at entries q) ≡ false) × (hash_eq (at entries q).hash h ≡ true)
  unfolding probe
  found_inversion h b i zero q e = cc
  found_inversion h b i (suc n) q e = ground (arith, found_inversion h b (i + 1) n q)

  pub vacant_inversion :
      (h : List ℕ) (b i n q : ℕ)
      → probe entries m h b i n ≡ vacant q
      → is_empty (at entries q) ≡ true
  unfolding probe
  vacant_inversion h b i zero q e = cc
  vacant_inversion h b i (suc n) q e = ground (arith, vacant_inversion h b (i + 1) n q)

  pub first_empty_inversion :
      (b i n p : ℕ) → first_empty entries m b i n ≡ some p → is_empty (at entries p) ≡ true
  unfolding first_empty
  first_empty_inversion b i zero p e = cc
  first_empty_inversion b i (suc n) p e = ground (arith, first_empty_inversion b (i + 1) n p)

  -- A walk for a key ends at the key, or where an insertion would put it.
  pub probe-first_empty :
      (h : List ℕ) (b i n p : ℕ)
      → first_empty entries m b i n ≡ some p
      → (probe entries m h b i n ≡ vacant p) ⊎ ((q : ℕ) × (probe entries m h b i n ≡ found q))
  unfolding probe first_empty
  probe-first_empty h b i zero p e = cc
  probe-first_empty h b i (suc n) p e = elim (Bool-cases (is_empty (at entries (position m b i)))) [
    | inl stop ↦ inl (ground (arith, stop))
    | inr go ↦ elim (Bool-cases (hash_eq (at entries (position m b i)).hash h)) [
      | inl hit ↦ inr (position m b i, rw (go, hit) refl)
      | inr further ↦ rw (go, further) (probe-first_empty h b (i + 1) n p (ground (arith, go)))
    ]
  ]

  module _ (p : ℕ) (e' : Entry) (free : is_empty (at entries p) ≡ true) where
    -- An entry written to an empty place hides no key that was there.
    pub found-set :
        (h : List ℕ) (b i n q : ℕ)
        → probe entries m h b i n ≡ found q
        → probe (set entries p e') m h b i n ≡ found q
    unfolding probe
    found-set h b i zero q e = cc
    found-set h b i (suc n) q e = elim (ℕ_discrete p (position m b i)) [
      | yes same ↦
          let stop : is_empty (at entries (position m b i)) ≡ true =
            ap (λ (k : ℕ). is_empty (at entries k)) (sym same) ∙ free in
          absurd (ground (arith, stop))
      | no differ ↦
          rw (get_or-set_ne entries p (position m b i) e' empty_entry differ)
            (ground (arith, found-set h b (i + 1) n q))
    ]

    -- The key of the new entry is found there, if the walk ended there before.
    pub vacant-set :
        (h : List ℕ) (b i n : ℕ)
        → p < length entries
        → is_empty e' ≡ false
        → hash_eq e'.hash h ≡ true
        → probe entries m h b i n ≡ vacant p
        → probe (set entries p e') m h b i n ≡ found p
    unfolding probe
    vacant-set h b i zero lt full same e = cc
    vacant-set h b i (suc n) lt full same e = elim (ℕ_discrete p (position m b i)) [
      | yes here ↦
          let new : at (set entries p e') (position m b i) ≡ e' =
            ap (at (set entries p e')) (sym here) ∙ get_or-set_self entries p e' empty_entry lt in
          rw (new, full, same) (ap found (sym here))
      | no differ ↦
          rw (get_or-set_ne entries p (position m b i) e' empty_entry differ)
            (ground (arith, vacant-set h b (i + 1) n lt full same))
    ]
