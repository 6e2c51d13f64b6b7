-- ===== src/InferGpu/Regions.antt =====
-- The memory that a GPU context maps is given back.
use xpu_kllm.Prelude.{
  ℕ, ◌+◌, ◌≡◌, ◌≢◌, refl, ap, ◌∙◌, arith, Bool, true, false, ◌&&◌, ◌⊎◌, inl, inr, Bool-cases,
  Option-cases, List, [], ◌∷◌, Option, none, some, ==_of_ne, ◌==◌, if◌then◌else◌,
}
use xpu_kllm.Prelude.Words.{mul64}
use xpu_kllm.Arena.{Model, block_total_bytes}
use xpu_kllm.Wavefront.{blocks_for}
use xpu_kllm.InferGpu.{
  Event, mapped, unmapped, Mmap, P2p, Ctx, map_huge_or_plain, alloc_region, free_region,
  with_regions, create, destroy,
}

-- How often a mapping of an address and a size was made and given back.
abbrev pub maps : ℕ → ℕ → List Event → ℕ
maps va size [] = 0
maps va size (mapped p n ∷ h) = (if (p == va) && (n == size) then 1 else 0) + maps va size h
maps va size (unmapped p n ∷ h) = maps va size h

abbrev pub unmaps : ℕ → ℕ → List Event → ℕ
unmaps va size [] = 0
unmaps va size (mapped p n ∷ h) = unmaps va size h
unmaps va size (unmapped p n ∷ h) = (if (p == va) && (n == size) then 1 else 0) + unmaps va size h

-- At every address as many mappings of each size are live after `h'` as after `h`.
abbrev pub Balanced : List Event → List Event → Type 0
Balanced h h' =
    (va size : ℕ) → maps va size h' + unmaps va size h ≡ unmaps va size h' + maps va size h

module _ (mmap : Mmap)
    (never_null : (h : List Event) (huge : Bool) (n : ℕ) → mmap h huge n ≢ some 0) where
  -- A region allocated is one mapping, at an address that is not 0.
  alloc_region_cases :
      (p2p : P2p) (h : List Event) (n : ℕ)
      → let (r, h') = alloc_region mmap p2p h n in
        ((r ≡ none) × (h' ≡ h))
        ⊎ ((va : ℕ) × (va ≢ 0)
            × (r ≡ some (record { gpu_va = va; size_bytes = n }))
            × (h' ≡ mapped va n ∷ h))
  unfolding alloc_region map_huge_or_plain
  alloc_region_cases p2p h n = elim (Option-cases p2p.drm_fd) [
    | inr (fd, e) ↦ inl (ground (arith, e), ground (arith, e))
    | inl uma ↦ elim (Option-cases (mmap h true n)) [
      | inr (va, e) ↦ inr (
        va,
        λ z. never_null h true n (e ∙ ap some z),
        ground (arith, uma, e),
        ground (arith, uma, e),
      )
      | inl no_huge ↦ elim (Option-cases (mmap h false n)) [
        | inr (va, e) ↦ inr (
          va,
          λ z. never_null h false n (e ∙ ap some z),
          ground (arith, uma, no_huge, e),
          ground (arith, uma, no_huge, e),
        )
        | inl nothing ↦
            inl (ground (arith, uma, no_huge, nothing), ground (arith, uma, no_huge, nothing))
      ]
    ]
  ]

free_region_lem :
    (va n : ℕ) (h : List Event)
    → va ≢ 0
    → free_region (record { gpu_va = va; size_bytes = n }) h ≡ unmapped va n ∷ h
unfolding free_region
free_region_lem va n h ne = rw (==_of_ne va 0 ne) refl

-- The destruction of what a creation returned, if anything.
unfoldable pub closed : Option Ctx × List Event → List Event
unfolding destroy
closed (c, h) = elim c [ none ↦ h | some ctx ↦ destroy ctx h ]

-- Both regions are given back, whether the host's buffers fit or not.
both_back :
    (has_wf : Bool) (p2p : P2p) (model : Model) (vocab_size needed bytes : ℕ) (buffers : Bool)
    (k kn l ln : ℕ) (h : List Event)
    → k ≢ 0
    → l ≢ 0
    → closed (
        with_regions has_wf p2p model vocab_size needed bytes buffers
          (record { gpu_va = k; size_bytes = kn })
          (record { gpu_va = l; size_bytes = ln })
          h)
      ≡ unmapped k kn ∷ unmapped l ln ∷ h
unfolding closed with_regions
both_back has_wf p2p model vocab_size needed bytes buffers k kn l ln h nk nl =
    let back : free_region (record { gpu_va = k; size_bytes = kn })
          (free_region (record { gpu_va = l; size_bytes = ln }) h)
        ≡ unmapped k kn ∷ unmapped l ln ∷ h =
      free_region_lem k kn (free_region (record { gpu_va = l; size_bytes = ln }) h) nk
      ∙ ap (λ (x : List Event). unmapped k kn ∷ x) (free_region_lem l ln h nl) in
    elim (Bool-cases buffers) [ inl fit ↦ rw fit back | inr short ↦ rw short back ]

module _ (mmap : Mmap)
    (never_null : (h : List Event) (huge : Bool) (n : ℕ) → mmap h huge n ≢ some 0) where
  -- If `mmap` never gives the address 0: whichever way the creation of a GPU context ends, and after
  -- the destruction of the context it returned, if any, at every address as many mappings of each size
  -- are live as before.
  pub create-destroy :
      (has_wf : Bool) (p2p : P2p) (model : Model) (vocab_size max_seq_len : ℕ) (buffers : Bool)
      (h : List Event)
      → Balanced h (closed (create mmap has_wf p2p model vocab_size max_seq_len buffers h))
  unfolding create closed
  create-destroy has_wf p2p model vocab_size max_seq_len buffers h va size =
      let needed = blocks_for model.tokens_per_block max_seq_len in
      let kv_bytes = mul64 (block_total_bytes model) needed in
      let log_bytes = mul64 vocab_size 4 in
      elim (alloc_region_cases mmap never_null p2p h kv_bytes) [
        | inl (e, eh) ↦
            rw (e, create) (ground (arith, ap (maps va size) eh, ap (unmaps va size) eh))
        | inr (k, nk, e, eh) ↦
            let h1 = (alloc_region mmap p2p h kv_bytes).1 in
            elim (alloc_region_cases mmap never_null p2p h1 log_bytes) [
              | inl (f, fh) ↦
                  let fin : closed (create mmap has_wf p2p model vocab_size max_seq_len buffers h)
                      ≡ unmapped k kv_bytes ∷ mapped k kv_bytes ∷ h =
                    rw (e, f, create)
                      (free_region_lem k kv_bytes (alloc_region mmap p2p h1 log_bytes).1 nk
                        ∙ ap (λ (x : List Event). unmapped k kv_bytes ∷ x) (fh ∙ eh)) in
                  ground (arith, ap (maps va size) fin, ap (unmaps va size) fin)
              | inr (l, nl, f, fh) ↦
                  let fin : closed (create mmap has_wf p2p model vocab_size max_seq_len buffers h)
                      ≡ unmapped k kv_bytes
                        ∷ unmapped l log_bytes
                        ∷ mapped l log_bytes
                        ∷ mapped k kv_bytes
                        ∷ h =
                    rw (e, f, create)
                      (both_back has_wf p2p model vocab_size needed (block_total_bytes model)
                          buffers k kv_bytes l log_bytes (alloc_region mmap p2p h1 log_bytes).1 nk
                          nl
                        ∙ ap (λ (x : List Event). unmapped k kv_bytes ∷ unmapped l log_bytes ∷ x)
                            (fh ∙ ap (λ (x : List Event). mapped l log_bytes ∷ x) eh)) in
                  ground (arith, ap (maps va size) fin, ap (unmaps va size) fin)
            ]
      ]
