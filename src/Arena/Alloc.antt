-- ===== src/Arena/Alloc.antt =====
-- The slots of an arena: what an allocation takes and what a release gives back.
use xpu_kllm.Prelude.{
  ℕ, ◌+◌, ◌-◌, ◌*◌, ◌/◌, ◌%◌, ◌^◌, ◌≤◌, ◌<◌, ◌≡◌, ◌≢◌, refl, sym, ap, ap₂, subst, ◌∙◌, arith, Bool,
  true, false, List, [], ◌⊎◌, Option, none, some, inl, inr, Option-cases, get_or, set,
  get_or-set_self, get_or-set_ne, length, length-set, lt→leb,
}
use native.Mathlib.Nat.{mod-eq_of_lt, mul-le-mul_right}
use native.Mathlib.Decide.{dec_lt, ℕ_discrete}
use xpu_kllm.Prelude.Words.{add64, mul64}
use xpu_kllm.Arena.{Arena, find_word, marked, take_slot, alloc}
use xpu_kllm.Arena.Bits.{
  bit_at, ctz-some, find_word-some, find_word-none, bit_at-set_self, bit_at-set_ne,
}

abbrev pub is_free : Arena → ℕ → Bool
is_free a slot = bit_at a.bitmap slot

-- The region does not wrap round, every word has its bits, and no slot is free past the last one.
pub record IsValid (a : Arena) : Type 0 where
  pub slots : 0 < a.slot_size
  pub region : a.base + a.total_slots * a.slot_size < 2 ^ 64
  pub words : length a.bitmap * 64 < a.total_slots + 64
  pub covers : a.total_slots ≤ length a.bitmap * 64
  pub hint_in : a.hint ≤ length a.bitmap
  pub word : (w : ℕ) → w < length a.bitmap → length (get_or a.bitmap w []) ≡ 64
  pub clear : (slot : ℕ) → a.total_slots ≤ slot → is_free a slot ≡ false

abbrev pub address : Arena → ℕ → ℕ
address a slot = a.base + slot * a.slot_size

-- What a bitmap keeps when one bit of it is written.
word-set :
    (bitmap : List (List Bool)) (w i : ℕ) (x : Bool)
    → ((v : ℕ) → v < length bitmap → length (get_or bitmap v []) ≡ 64)
    → w < length bitmap
    → (v : ℕ) → v < length (set bitmap w (set (get_or bitmap w []) i x))
    → length (get_or (set bitmap w (set (get_or bitmap w []) i x)) v []) ≡ 64
word-set bitmap w i x word lt v h = elim (ℕ_discrete w v) [
  | yes same ↦
      subst (λ (k : ℕ). length (get_or (set bitmap w (set (get_or bitmap w []) i x)) k []) ≡ 64)
        same
        (ap length (get_or-set_self bitmap w (set (get_or bitmap w []) i x) [] lt)
          ∙ length-set (get_or bitmap w []) i x
          ∙ word w lt)
  | no differ ↦
      ap length (get_or-set_ne bitmap w v (set (get_or bitmap w []) i x) [] differ)
      ∙ word v (omega (arith, length-set bitmap w (set (get_or bitmap w []) i x)))
]

found_lem :
    (a : Arena) (w n v bit : ℕ)
    → IsValid a
    → find_word a.bitmap w n ≡ some (v, bit)
    → w + n ≤ length a.bitmap
    → (bit < 64)
      × (v < length a.bitmap)
      × (is_free a (v * 64 + bit) ≡ true)
      × (v * 64 + bit < a.total_slots)
unfolding bit_at
found_lem a w n v bit va e le =
    let (lt, h) = find_word-some a.bitmap w n v bit e in
    let (small, one) = ctz-some (get_or a.bitmap v []) bit h in
    let inside : v < length a.bitmap = omega arith in
    let b : bit < 64 = omega (arith, va.word v inside) in
    let div : (v * 64 + bit) / 64 ≡ v = omega arith in
    let low : (v * 64 + bit) % 64 ≡ bit = omega arith in
    let at : is_free a (v * 64 + bit) ≡ true =
      ap (λ (k : ℕ). get_or (get_or a.bitmap k []) ((v * 64 + bit) % 64) false) div
      ∙ ap (λ (k : ℕ). get_or (get_or a.bitmap v []) k false) low
      ∙ one in
    (
      b,
      inside,
      at,
      elim (dec_lt (v * 64 + bit) a.total_slots) [
        | yes fits ↦ fits
        | no beyond ↦ absurd (ground (arith, at, va.clear (v * 64 + bit) (omega arith)))
      ],
    )

-- `p` is the address of a slot that was free, is taken in `a'`, and is the only one that changed.
abbrev pub HasTaken : Arena → Option ℕ → Arena → Type 0
HasTaken a p a' =
    (slot : ℕ) × (slot < a.total_slots)
    × (p ≡ some (address a slot))
    × (is_free a slot ≡ true)
    × (is_free a' slot ≡ false)
    × ((other : ℕ) → slot ≢ other → is_free a' other ≡ is_free a other)
    × (a'.base ≡ a.base)
    × (a'.slot_size ≡ a.slot_size)
    × (a'.total_slots ≡ a.total_slots)

abbrev pub written : Arena → ℕ → Bool → List (List Bool)
written a slot x = set a.bitmap (slot / 64) (set (get_or a.bitmap (slot / 64) []) (slot % 64) x)

none_free :
    (a : Arena)
    → IsValid a
    → find_word a.bitmap a.hint (length a.bitmap - a.hint) ≡ none
    → find_word a.bitmap 0 a.hint ≡ none
    → (slot : ℕ) → is_free a slot ≡ false
unfolding bit_at
none_free a va high low slot = elim (dec_lt slot a.total_slots) [
  | no beyond ↦ va.clear slot (omega arith)
  | yes fits ↦ elim (dec_lt (slot / 64) a.hint) [
    | yes before ↦
        find_word-none a.bitmap 0 a.hint (slot / 64) (slot % 64) low (omega arith) (omega arith)
    | no behind ↦
        find_word-none a.bitmap a.hint (length a.bitmap - a.hint) (slot / 64) (slot % 64) high
          (omega arith) (omega (arith, va.covers))
  ]
]

pub address_small :
    (a : Arena) (slot : ℕ) → IsValid a → slot < a.total_slots → address a slot < 2 ^ 64
address_small a slot va lt =
    omega
      (arith, va.region, mul-le-mul_right {m = slot} {n = a.total_slots} a.slot_size (omega arith))

pub slot_address :
    (a : Arena) (slot : ℕ)
    → IsValid a
    → slot < a.total_slots
    → add64 a.base (mul64 slot a.slot_size) ≡ address a slot
slot_address a slot va lt =
    let h : address a slot < 2 ^ 64 = address_small a slot va lt in
    let inner : (slot * a.slot_size) % 2 ^ 64 ≡ slot * a.slot_size = mod-eq_of_lt (omega arith) in
    ap (λ (k : ℕ). (a.base + k) % 2 ^ 64) inner ∙ mod-eq_of_lt h

module _ (x : Bool) (a a' : Arena) (slot : ℕ) (va : IsValid a) (lt : slot < a.total_slots)
    (e : a'.bitmap ≡ written a slot x) where
  inside : slot / 64 < length a.bitmap
  inside = omega (arith, va.covers)

  pub written_bit : is_free a' slot ≡ x
  written_bit =
      ap (λ (m : List (List Bool)). bit_at m slot) e
      ∙ bit_at-set_self a.bitmap slot x inside (va.word (slot / 64) inside)

  pub kept_bits : (other : ℕ) → slot ≢ other → is_free a' other ≡ is_free a other
  kept_bits other ne =
      ap (λ (m : List (List Bool)). bit_at m other) e
      ∙ bit_at-set_ne a.bitmap slot other x inside ne

  pub written-IsValid :
      a'.slot_size ≡ a.slot_size
      → a'.base ≡ a.base
      → a'.total_slots ≡ a.total_slots
      → a'.hint ≤ length a.bitmap
      → IsValid a'
  written-IsValid es eb et eh =
      let len : length a'.bitmap ≡ length a.bitmap =
        ap length e
        ∙ length-set a.bitmap (slot / 64) (set (get_or a.bitmap (slot / 64) []) (slot % 64) x) in
      record {
        slots = omega (arith, va.slots);
        region =
            subst (λ (k : ℕ). k < 2 ^ 64) (ap₂ ◌+◌ (sym eb) (ap₂ ◌*◌ (sym et) (sym es))) va.region;
        words = omega (arith, va.words);
        covers = omega (arith, va.covers);
        hint_in = omega arith;
        word =
            subst (λ (m : List (List Bool)). (w : ℕ) → w < length m → length (get_or m w []) ≡ 64)
              (sym e) (word-set a.bitmap (slot / 64) (slot % 64) x va.word inside);
        clear = λ k h. kept_bits k (λ same. absurd (omega arith)) ∙ va.clear k (omega arith);
      }

take_slot_lem :
    (a : Arena) (w n v bit : ℕ)
    → IsValid a
    → find_word a.bitmap w n ≡ some (v, bit)
    → w + n ≤ length a.bitmap
    → let (p, a') = take_slot a v bit in HasTaken a p a' × IsValid a'
unfolding take_slot marked
take_slot_lem a w n v bit va e le =
    let (b, room, at, fits) = found_lem a w n v bit va e le in
    let slot = v * 64 + bit in
    let div : v ≡ slot / 64 = omega arith in
    let low : bit ≡ slot % 64 = omega arith in
    let eq : set a.bitmap v (set (get_or a.bitmap v []) bit false) ≡ written a slot false =
      ap₂ (λ (k i : ℕ). set a.bitmap k (set (get_or a.bitmap k []) i false)) div low in
    rw (lt→leb a.total_slots slot fits) (
      (
        slot,
        fits,
        ap some (slot_address a slot va fits),
        at,
        written_bit false a (marked a v bit) slot va fits eq,
        kept_bits false a (marked a v bit) slot va fits eq,
        refl,
        refl,
        refl,
      ),
      written-IsValid false a (marked a v bit) slot va fits eq refl refl refl (omega (arith, room)),
    )

-- An allocation of a valid arena gives the address of a slot that was free and takes that slot
-- alone, and NULL only when no slot is free, and then changes nothing. The arena stays valid.
pub alloc_lem :
    (a : Arena)
    → IsValid a
    → let (p, a') = alloc a in
      IsValid a'
      × (HasTaken a p a' ⊎ ((p ≡ none) × (a' ≡ a) × ((slot : ℕ) → is_free a slot ≡ false)))
unfolding alloc
alloc_lem a va = elim (Option-cases (find_word a.bitmap a.hint (length a.bitmap - a.hint))) [
  | inr ((v, bit), e) ↦
      let (t, va') =
        take_slot_lem a a.hint (length a.bitmap - a.hint) v bit va e (omega (arith, va.hint_in)) in
      rw (alloc, e) (va', inl t)
  | inl high ↦ elim (Option-cases (find_word a.bitmap 0 a.hint)) [
    | inr ((v, bit), e) ↦
        let (t, va') = take_slot_lem a 0 a.hint v bit va e (omega (arith, va.hint_in)) in
        rw (alloc, high, e) (va', inl t)
    | inl low ↦ rw (alloc, high, low) (va, inr (refl, refl, λ slot. none_free a va high low slot))
  ]
]
