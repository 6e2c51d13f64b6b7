-- ===== src/Index/Again.antt =====
-- A lookup changes no later answer.
use xpu_kllm.Prelude.{ℕ, zero, suc, ◌+◌, ◌≡◌, refl, ap, ◌∙◌, List, [], ◌∷◌, Option, none, set, sym}
use xpu_kllm.Arena.{slot_ptr}
use xpu_kllm.Prelude.Words.{add64}
use xpu_kllm.Index.{
  Entry, Stats, Index, Probe, found, vacant, exhausted, probe, position, lookup, hash_to_bucket,
}
use xpu_kllm.Index.Probing.{at}
use xpu_kllm.Index.Insert.{walk}

-- The entries with the time of one of them changed.
abbrev touched : List Entry → ℕ → ℕ → List Entry
touched es p now = set es p (record (at es p) { last_access_ns = now })

touched_slot :
    (es : List Entry) (p now j : ℕ) → (at (touched es p now) j).slot_index ≡ (at es j).slot_index
touched_slot [] p now j = refl
touched_slot (e ∷ es) zero now zero = refl
touched_slot (e ∷ es) zero now (suc j) = refl
touched_slot (e ∷ es) (suc p) now zero = refl
touched_slot (e ∷ es) (suc p) now (suc j) = touched_slot es p now j

touched_hash : (es : List Entry) (p now j : ℕ) → (at (touched es p now) j).hash ≡ (at es j).hash
touched_hash [] p now j = refl
touched_hash (e ∷ es) zero now zero = refl
touched_hash (e ∷ es) zero now (suc j) = refl
touched_hash (e ∷ es) (suc p) now zero = refl
touched_hash (e ∷ es) (suc p) now (suc j) = touched_hash es p now j

probe-touched :
    (es : List Entry) (p now m : ℕ) (h : List ℕ) (b i n : ℕ)
    → probe (touched es p now) m h b i n ≡ probe es m h b i n
unfolding probe
probe-touched es p now m h b i zero = refl
probe-touched es p now m h b i (suc n) =
    rw
      (
        touched_slot es p now (position m b i),
        touched_hash es p now (position m b i),
        probe-touched es p now m h b (i + 1) n,
      )
      refl

-- The answer of a lookup, from the end of its walk.
abbrev answer : Index → Probe → Option ℕ
answer idx (found q) = slot_ptr idx.arena (at idx.entries q).slot_index
answer idx (vacant q) = none
answer idx exhausted = none

lookup-answer :
    (idx : Index) (h : List ℕ) (now : ℕ) → (lookup idx h now).0 ≡ answer idx (walk idx h)
unfolding lookup
lookup-answer idx h now =
    elim (walk idx h)
        as (λ (w : Probe). walk idx h ≡ w → (lookup idx h now).0 ≡ answer idx (walk idx h)) [
          | found q ↦ λ w. rw (w, lookup) refl
          | vacant q ↦ λ w. rw (w, lookup) refl
          | exhausted ↦ λ w. rw (w, lookup) refl
        ]
      refl

counted :
    (idx : Index) (stats : Stats) (w : Probe)
    → answer (record idx { stats = stats }) w ≡ answer idx w
counted idx stats (found q) = refl
counted idx stats (vacant q) = refl
counted idx stats exhausted = refl

-- An index after a lookup that found an entry, and after one that found none.
after : Index → ℕ → ℕ → Stats → Index
after idx q now stats = record idx { entries = touched idx.entries q now; stats = stats }

same_answer :
    (idx : Index) (q now : ℕ) (stats : Stats) (h : List ℕ) (later : ℕ)
    → (lookup (after idx q now stats) h later).0 ≡ (lookup idx h later).0
unfolding after
same_answer idx q now stats h later =
    lookup-answer (after idx q now stats) h later
    ∙ ap (answer (after idx q now stats))
        (probe-touched idx.entries q now idx.mask h (hash_to_bucket h idx.mask) 0 idx.capacity)
    ∙ each (walk idx h)
    ∙ sym (lookup-answer idx h later)
  where
    each : (w : Probe) → answer (after idx q now stats) w ≡ answer idx w
    each (found k) = ap (slot_ptr idx.arena) (touched_slot idx.entries q now k)
    each (vacant k) = refl
    each exhausted = refl

-- A lookup changes no later answer: whatever key was looked up before, and whether it was found, a
-- lookup gives what it would have given.
pub lookup-lookup :
    (idx : Index) (g h : List ℕ) (now later : ℕ)
    → (lookup (lookup idx g now).1 h later).0 ≡ (lookup idx h later).0
unfolding lookup after
lookup-lookup idx g h now later =
    let missed : (lookup
          (record idx { stats = record idx.stats { misses = add64 idx.stats.misses 1 } }) h later).0
        ≡ answer idx (walk idx h) =
      lookup-answer (record idx { stats = record idx.stats { misses = add64 idx.stats.misses 1 } })
        h later
      ∙ counted idx (record idx.stats { misses = add64 idx.stats.misses 1 }) (walk idx h) in
    elim (walk idx g)
        as (λ (w : Probe).
          walk idx g ≡ w → (lookup (lookup idx g now).1 h later).0 ≡ (lookup idx h later).0) [
            | found q ↦ λ w.
                let state : (lookup idx g now).1
                    ≡ after idx q now (record idx.stats { hits = add64 idx.stats.hits 1 }) =
                  rw (w, lookup) refl in
                ap (λ (i : Index). (lookup i h later).0) state
                ∙ same_answer idx q now (record idx.stats { hits = add64 idx.stats.hits 1 }) h later
            | vacant q ↦ λ w.
                let state : (lookup idx g now).1 ≡ record idx {
                  stats = record idx.stats { misses = add64 idx.stats.misses 1 };
                } =
                  rw (w, lookup) refl in
                ap (λ (i : Index). (lookup i h later).0) state
                ∙ missed
                ∙ sym (lookup-answer idx h later)
            | exhausted ↦ λ w.
                let state : (lookup idx g now).1 ≡ record idx {
                  stats = record idx.stats { misses = add64 idx.stats.misses 1 };
                } =
                  rw (w, lookup) refl in
                ap (λ (i : Index). (lookup i h later).0) state
                ∙ missed
                ∙ sym (lookup-answer idx h later)
          ]
      refl

-- The answer of a lookup does not depend on the clock.
pub lookup_clock :
    (idx : Index) (h : List ℕ) (now later : ℕ) → (lookup idx h now).0 ≡ (lookup idx h later).0
lookup_clock idx h now later = lookup-answer idx h now ∙ sym (lookup-answer idx h later)
