-- ===== src/Index/Victim.antt =====
-- The victim of an eviction by age: the entry in use whose last access is the oldest.
use xpu_kllm.Prelude.{
  ℕ, zero, suc, ◌+◌, ◌-◌, ◌^◌, ◌≤◌, ◌<◌, ◌≡◌, refl, subst, arith, true, false, List, [], ◌∷◌, ◌⊎◌,
  inl, inr, Bool-cases, length, total, lt→ltb, le→ltb,
}
use native.Mathlib.Decide.{dec_lt}
use xpu_kllm.Index.{Entry, is_empty, Index, overfull, lru_scan, find_lru_entry, make_room}
use xpu_kllm.Index.Probing.{at}
use xpu_kllm.Index.Inv.{IsValid, in_use}
use xpu_kllm.Index.Steps.{release-IsValid}

-- The time of `k` is the least among the entries in use, and below `bound`.
abbrev pub IsOldest : List Entry → ℕ → Type 0
IsOldest es k =
    (k < length es)
    × (is_empty (at es k) ≡ false)
    × ((j : ℕ) → is_empty (at es j) ≡ false → (at es k).last_access_ns ≤ (at es j).last_access_ns)

-- Entries that are in use only from a given time on.
abbrev AllFrom : List Entry → ℕ → Type 0
AllFrom es t = (j : ℕ) → is_empty (at es j) ≡ false → t ≤ (at es j).last_access_ns

AllFrom-cons :
    (e : Entry) (es : List Entry) (t : ℕ)
    → (is_empty e ≡ false → t ≤ e.last_access_ns)
    → AllFrom es t
    → AllFrom (e ∷ es) t
AllFrom-cons e es t he hs zero u = he u
AllFrom-cons e es t he hs (suc j) u = hs j u

lru_scan_lem :
    (es : List Entry) (i oldest victim : ℕ)
    → ((lru_scan es i oldest victim ≡ victim) × AllFrom es oldest)
      ⊎ ((k : ℕ) × (lru_scan es i oldest victim ≡ i + k)
          × IsOldest es k
          × ((at es k).last_access_ns < oldest))
unfolding lru_scan
lru_scan_lem [] i oldest victim = inl (refl, λ j u. ground (arith, u))
lru_scan_lem (e ∷ es) i oldest victim = elim (Bool-cases (is_empty e)) [
  | inl skip ↦ rw skip elim (lru_scan_lem es (i + 1) oldest victim) [
    | inl (same, from) ↦ inl (same, AllFrom-cons e es oldest (λ u. ground (arith, u)) from)
    | inr (k, here, (lt, u, least), below) ↦ inr (
      suc k,
      omega (arith, here),
      (
        omega (arith, lt),
        u,
        AllFrom-cons e es (at es k).last_access_ns (λ w. ground (arith, w)) least,
      ),
      below,
    )
  ]
  | inr full ↦ elim (dec_lt e.last_access_ns oldest) [
    | yes older ↦
        rw (full, lt→ltb _ _ older)
          elim (lru_scan_lem es (i + 1) e.last_access_ns i) [
            | inl (same, from) ↦ inr (
              zero,
              omega (arith, same),
              (omega arith, full, AllFrom-cons e es e.last_access_ns (λ w. omega arith) from),
              older,
            )
            | inr (k, here, (lt, u, least), below) ↦ inr (
              suc k,
              omega (arith, here),
              (
                omega (arith, lt),
                u,
                AllFrom-cons e es (at es k).last_access_ns (λ w. omega (arith, below)) least,
              ),
              omega (arith, below, older),
            )
          ]
    | no newer ↦
        rw (full, le→ltb e.last_access_ns oldest (omega (arith, newer)))
          elim (lru_scan_lem es (i + 1) oldest victim) [
            | inl (same, from) ↦
                inl (same, AllFrom-cons e es oldest (λ w. omega (arith, newer)) from)
            | inr (k, here, (lt, u, least), below) ↦ inr (
              suc k,
              omega (arith, here),
              (
                omega (arith, lt),
                u,
                AllFrom-cons e es (at es k).last_access_ns (λ w. omega (arith, below, newer)) least,
              ),
              below,
            )
          ]
  ]
]

-- A positive count has an entry in use.
some_in_use : (es : List Entry) → 0 < total in_use es → (j : ℕ) × (is_empty (at es j) ≡ false)
some_in_use [] h = absurd (omega arith)
some_in_use (e ∷ es) h = elim (Bool-cases (is_empty e)) [
  | inl skip ↦ let (j, u) = some_in_use es (ground (arith, skip)) in (suc j, u)
  | inr full ↦ (zero, full)
]

pub overfull-occupied : (idx : Index) → overfull idx ≡ true → 0 < idx.occupied
unfolding overfull
overfull-occupied idx e = ground arith

-- In a valid index with an entry in use, `find_lru_entry` gives an entry in use, and none in use was
-- accessed earlier.
pub find_lru_entry_lem :
    (bits : ℕ) (idx : Index)
    → IsValid bits idx
    → 0 < idx.occupied
    → IsOldest idx.entries (find_lru_entry idx)
unfolding find_lru_entry
find_lru_entry_lem bits idx v h =
    let (j, u) = some_in_use idx.entries (omega (arith, v.counted)) in
    elim (lru_scan_lem idx.entries 0 (2 ^ 64 - 1) 0) [
      | inl (same, from) ↦
          let (inside, taken, early) = v.sound j u in absurd (omega (arith, from j u, early))
      | inr (k, here, oldest, below) ↦ subst (IsOldest idx.entries) (omega (arith, here)) oldest
    ]

pub make_room-IsValid : {bits : ℕ} {idx : Index} → IsValid bits idx → IsValid bits (make_room idx)
unfolding make_room
make_room-IsValid {bits} {idx} v = elim (Bool-cases (overfull idx)) [
  | inl full ↦
      let (lt, u, least) = find_lru_entry_lem bits idx v (overfull-occupied idx full) in
      rw full (release-IsValid v (find_lru_entry idx) lt u)
  | inr fits ↦ rw fits v
]
