-- ===== src/Weights/Counts.antt =====
-- Blocks taken from the two allocators and given back to them, and what a destruction gives back.
use xpu_kllm.Prelude.{
  ℕ, ◌+◌, ◌≡◌, refl, ◌∙◌, arith, Bool, true, false, List, [], ◌∷◌, Option, none, some,
  if◌then◌else◌,
}
use xpu_kllm.Weights.{
  Event, allocated, freed, submitted, Layer, Loader, release_ptr, release_layer, release_layers,
  destroy,
}

-- How many blocks came from the GPU's allocator (`true`) or from malloc (`false`).
abbrev pub taken_from : Bool → List Event → ℕ
taken_from b [] = 0
taken_from b (allocated true p n ∷ h) = (if b then 1 else 0) + taken_from b h
taken_from b (allocated false p n ∷ h) = (if b then 0 else 1) + taken_from b h
taken_from b (freed on_gpu p ∷ h) = taken_from b h
taken_from b (submitted wf ∷ h) = taken_from b h

-- How many were given back to it.
abbrev pub given_to : Bool → List Event → ℕ
given_to b [] = 0
given_to b (allocated on_gpu p n ∷ h) = given_to b h
given_to b (freed true p ∷ h) = (if b then 1 else 0) + given_to b h
given_to b (freed false p ∷ h) = (if b then 0 else 1) + given_to b h
given_to b (submitted wf ∷ h) = given_to b h

-- The pointers of a layer that are not NULL.
abbrev pub held : Option ℕ → ℕ
held none = 0
held (some p) = 1

abbrev pub in_layer : Layer → ℕ
in_layer [] = 0
in_layer ((p, n) ∷ ps) = held p + in_layer ps

abbrev pub in_layers : List Layer → ℕ
in_layers [] = 0
in_layers (l ∷ ls) = in_layer l + in_layers ls

-- All of a loader's pointers.
abbrev pub pointers : Loader → ℕ
pointers ld = held ld.embedding + held ld.lm_head + in_layers ld.layers

-- A number that counts only where the allocator `g` is `b`.
abbrev pub share : Bool → Bool → ℕ → ℕ
share true true n = n
share true false n = 0
share false true n = 0
share false false n = n

pub share-add : (g b : Bool) (m n : ℕ) → share g b (m + n) ≡ share g b m + share g b n
share-add true true m n = refl
share-add true false m n = omega arith
share-add false true m n = omega arith
share-add false false m n = refl

pub share_zero : (g b : Bool) → share g b 0 ≡ 0
share_zero true true = refl
share_zero true false = refl
share_zero false true = refl
share_zero false false = refl

release_ptr_lem :
    (g b : Bool) (p : Option ℕ) (h : List Event)
    → given_to b (release_ptr g p h) ≡ given_to b h + share g b (held p)
unfolding release_ptr
release_ptr_lem g b none h = omega (arith, share_zero g b)
release_ptr_lem true true (some p) h = omega arith
release_ptr_lem true false (some p) h = omega arith
release_ptr_lem false true (some p) h = omega arith
release_ptr_lem false false (some p) h = omega arith

release_layer_lem :
    (g b : Bool) (l : Layer) (h : List Event)
    → given_to b (release_layer g l h) ≡ given_to b h + share g b (in_layer l)
unfolding release_layer
release_layer_lem g b [] h = omega (arith, share_zero g b)
release_layer_lem g b ((p, n) ∷ ps) h = omega (
  arith,
  release_layer_lem g b ps (release_ptr g p h),
  release_ptr_lem g b p h,
  share-add g b (held p) (in_layer ps),
)

release_layers_lem :
    (g b : Bool) (ls : List Layer) (h : List Event)
    → given_to b (release_layers g ls h) ≡ given_to b h + share g b (in_layers ls)
unfolding release_layers
release_layers_lem g b [] h = omega (arith, share_zero g b)
release_layers_lem g b (l ∷ ls) h = omega (
  arith,
  release_layers_lem g b ls (release_layer g l h),
  release_layer_lem g b l h,
  share-add g b (in_layer l) (in_layers ls),
)

pub destroy_lem :
    (b : Bool) (ld : Loader) (h : List Event)
    → given_to b (destroy ld h) ≡ given_to b h + share ld.has_gpu b (pointers ld)
unfolding destroy
destroy_lem b ld h =
    let g = ld.has_gpu in
    let h1 = release_ptr g ld.embedding h in
    let h2 = release_ptr g ld.lm_head h1 in
    omega (
      arith,
      release_layers_lem g b ld.layers h2,
      release_ptr_lem g b ld.lm_head h1,
      release_ptr_lem g b ld.embedding h,
      share-add g b (held ld.embedding) (held ld.lm_head),
      share-add g b (held ld.embedding + held ld.lm_head) (in_layers ld.layers),
    )

-- Releases take nothing.
release_ptr_taken :
    (g b : Bool) (p : Option ℕ) (h : List Event) → taken_from b (release_ptr g p h) ≡ taken_from b h
unfolding release_ptr
release_ptr_taken g b none h = refl
release_ptr_taken g b (some p) h = refl

release_layer_taken :
    (g b : Bool) (l : Layer) (h : List Event) → taken_from b (release_layer g l h) ≡ taken_from b h
unfolding release_layer
release_layer_taken g b [] h = refl
release_layer_taken g b ((p, n) ∷ ps) h =
    release_layer_taken g b ps (release_ptr g p h) ∙ release_ptr_taken g b p h

release_layers_taken :
    (g b : Bool) (ls : List Layer) (h : List Event)
    → taken_from b (release_layers g ls h) ≡ taken_from b h
unfolding release_layers
release_layers_taken g b [] h = refl
release_layers_taken g b (l ∷ ls) h =
    release_layers_taken g b ls (release_layer g l h) ∙ release_layer_taken g b l h

pub destroy_taken :
    (b : Bool) (ld : Loader) (h : List Event) → taken_from b (destroy ld h) ≡ taken_from b h
unfolding destroy
destroy_taken b ld h =
    let h1 = release_ptr ld.has_gpu ld.embedding h in
    release_layers_taken ld.has_gpu b ld.layers (release_ptr ld.has_gpu ld.lm_head h1)
    ∙ release_ptr_taken ld.has_gpu b ld.lm_head h1
    ∙ release_ptr_taken ld.has_gpu b ld.embedding h
