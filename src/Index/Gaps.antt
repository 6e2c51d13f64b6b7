-- ===== src/Index/Gaps.antt =====
-- What an eviction by key does to the other keys.
use xpu_kllm.Prelude.{
  ℕ, zero, suc, ◌<◌, ◌≡◌, refl, ap, ◌∙◌, arith, Bool, true, List, none, length, set,
  get_or-set_self,
}
use xpu_kllm.Index.{
  Entry, Index, is_empty, empty_slot, empty_entry, hash_to_bucket, found, vacant, position, probe,
  lookup, release, evict,
}
use xpu_kllm.Index.Probing.{at}
use xpu_kllm.Index.Inv.{IsValid, position-lt}
use xpu_kllm.Index.Insert.{walk}

-- The first position of a key's walk.
abbrev pub home : Index → List ℕ → ℕ
home idx h = position idx.mask (hash_to_bucket h idx.mask) 0

probe_gap :
    (entries : List Entry) (m : ℕ) (k : List ℕ) (b : ℕ)
    → is_empty (at entries (position m b 0)) ≡ true
    → (n : ℕ) → 0 < n
    → probe entries m k b 0 n ≡ vacant (position m b 0)
unfolding probe
probe_gap entries m k b gap zero lt = absurd (omega arith)
probe_gap entries m k b gap (suc n) lt = rw gap refl

-- A lookup ends as a miss at an empty home position.
lookup_gap :
    (idx : Index) (k : List ℕ) (now : ℕ)
    → 0 < idx.capacity
    → is_empty (at idx.entries (home idx k)) ≡ true
    → (lookup idx k now).0 ≡ none
unfolding lookup
lookup_gap idx k now lt gap =
    let stop : (n : ℕ)
        → 0 < n
        → probe idx.entries idx.mask k (hash_to_bucket k idx.mask) 0 n ≡ vacant (home idx k) =
      probe_gap idx.entries idx.mask k (hash_to_bucket k idx.mask) gap in
    rw (stop idx.capacity lt, lookup) refl

-- In a valid index the eviction of a key that is found at its home position succeeds, and turns
-- lookups of every key with the same home position into misses, also of a key that was found before:
-- the walk of a lookup ends at the first empty entry, and the eviction leaves one.
pub lookup-evict :
    (bits : ℕ) (idx : Index) (h k : List ℕ) (now : ℕ)
    → IsValid bits idx
    → walk idx h ≡ found (home idx h)
    → home idx k ≡ home idx h
    → ((evict idx h).0 ≡ true) × ((lookup (evict idx h).1 k now).0 ≡ none)
unfolding evict release
lookup-evict bits idx h k now v e same =
    let pos = home idx h in
    let lt : pos < length idx.entries = position-lt v (hash_to_bucket h idx.mask) 0 in
    let e' : Entry = record (at idx.entries pos) { slot_index = empty_slot } in
    let gap : is_empty (at (set idx.entries pos e') (home idx k)) ≡ true =
      ap (λ (p : ℕ). is_empty (at (set idx.entries pos e') p)) same
      ∙ ap is_empty (get_or-set_self idx.entries pos e' empty_entry lt) in
    let result : evict idx h ≡ (true, release idx pos) = rw (e, evict) refl in
    (
      ap (λ (r : Bool × Index). r.0) result,
      ap (λ (r : Bool × Index). (lookup r.1 k now).0) result
          ∙ lookup_gap (release idx pos) k now (omega (arith, lt, v.size)) gap,
    )
