-- ===== src/InferGpu/Gather.antt =====
-- The loop of a fetch gathers one read for each block of a sequence.
use xpu_kllm.Prelude.{
  ℕ, zero, suc, ◌+◌, ◌≤◌, ◌<◌, ◌≡◌, refl, sym, ap, ◌∙◌, arith, Bool, true, ◌&&◌, List, [], ◌∷◌,
  ◌++◌, append-nil, append_assoc, length, length-append, get_or, some, ltb, leb, lt→leb, le→leb,
  ==_of_ne,
}
use native.Mathlib.Decide.{dec_lt, ℕ_discrete}
use xpu_kllm.Wavefront.{BlockDesc, Wavefront, kv_fetch, max_blocks, submit, blocks_for}
use xpu_kllm.Wavefront.Fetch.{no_block}
use xpu_kllm.InferGpu.{Ctx, fetch_desc, gather, submit_all, count_blocks}

-- The blocks of wavefronts, in the order of submission.
abbrev pub blocks_of : List Wavefront → List BlockDesc
blocks_of [] = []
blocks_of (w ∷ ws) = w.blocks ++ blocks_of ws

-- Every wavefront has 1 to 64 blocks.
abbrev pub are_sized : List Wavefront → Bool
are_sized [] = true
are_sized (w ∷ ws) = (ltb 0 (length w.blocks) && leb (length w.blocks) max_blocks) && are_sized ws

blocks_of-append : (xs ys : List Wavefront) → blocks_of (xs ++ ys) ≡ blocks_of xs ++ blocks_of ys
blocks_of-append [] ys = refl
blocks_of-append (x ∷ xs) ys =
    ap (λ (r : List BlockDesc). x.blocks ++ r) (blocks_of-append xs ys)
    ∙ sym (append_assoc x.blocks (blocks_of xs) (blocks_of ys))

are_sized-append :
    (xs : List Wavefront) (w : Wavefront)
    → are_sized xs ≡ true
    → 0 < length w.blocks
    → length w.blocks ≤ 64
    → are_sized (xs ++ (w ∷ [])) ≡ true
are_sized-append [] w h lo hi = ground arith
are_sized-append (x ∷ xs) w h lo hi = ground (arith, are_sized-append xs w (ground arith) lo hi)

pub count_blocks_lem : (ws : List Wavefront) → count_blocks ws ≡ length (blocks_of ws)
count_blocks_lem [] = refl
count_blocks_lem (w ∷ ws) =
    omega (arith, count_blocks_lem ws, length-append w.blocks (blocks_of ws))

length_zero : (xs : List BlockDesc) → length xs ≡ 0 → xs ≡ []
length_zero [] h = refl
length_zero (x ∷ xs) h = absurd (omega arith)

submit_some : (wf : Wavefront) → 0 < length wf.blocks → submit true wf ≡ true
unfolding submit
submit_some wf h = rw (==_of_ne (length wf.blocks) 0 (omega (arith, h))) refl

module _ (sha : List ℕ → List ℕ) (beyond : ℕ → ℕ) (ctx : Ctx) (ids : List ℕ)
    (has_wf : ctx.has_wf ≡ true) where
  -- One read for every block, from `b` on.
  abbrev pub reads : ℕ → ℕ → List BlockDesc
  reads b zero = []
  reads b (suc n) = fetch_desc sha beyond ctx ids b ∷ reads (b + 1) n

  pub length-reads : (b n : ℕ) → length (reads b n) ≡ n
  length-reads b zero = refl
  length-reads b (suc n) = omega (arith, length-reads (b + 1) n)

  gather_lem :
      (b n : ℕ) (blocks : List BlockDesc) (sent : List Wavefront)
      → length blocks < 64
      → are_sized sent ≡ true
      → (blocks' : List BlockDesc) × (sent' : List Wavefront) × (gather sha beyond ctx ids b n
            blocks sent
          ≡ some (blocks', sent'))
        × (length blocks' < 64)
        × (are_sized sent' ≡ true)
        × (blocks_of sent' ++ blocks' ≡ blocks_of sent ++ (blocks ++ reads b n))
  unfolding gather
  gather_lem b zero blocks sent few sized = (
    blocks,
    sent,
    refl,
    few,
    sized,
    ap (λ (r : List BlockDesc). blocks_of sent ++ r) (sym (append-nil blocks)),
  )
  gather_lem b (suc n) blocks sent few sized =
      let d = fetch_desc sha beyond ctx ids b in
      let grown = blocks ++ (d ∷ []) in
      let one_more : length grown ≡ length blocks + 1 = length-append blocks (d ∷ []) in
      let wf : Wavefront = record { flags = kv_fetch; blocks = grown } in
      elim (dec_lt (length grown) 64) [
        | yes room ↦
            let (blocks', sent', e, few', sized', all) =
              gather_lem (b + 1) n grown sent room sized in
            (
              blocks',
              sent',
              rw (lt→leb 64 (length grown) room) e,
              few',
              sized',
              all
                  ∙ ap (λ (r : List BlockDesc). blocks_of sent ++ r)
                      (append_assoc blocks (d ∷ []) (reads (b + 1) n)),
            )
        | no full ↦
            let accepted : submit ctx.has_wf wf ≡ true =
              ap (λ (b : Bool). submit b wf) has_wf ∙ submit_some wf (omega (arith, full)) in
            let (blocks', sent', e, few', sized', all) =
              gather_lem (b + 1) n [] (sent ++ (wf ∷ [])) (omega arith) (
                are_sized-append sent wf sized (omega (arith, full))
                  (omega (arith, one_more, few))) in
            (
              blocks',
              sent',
              rw (le→leb 64 (length grown) (omega (arith, full)), accepted) e,
              few',
              sized',
              all
                  ∙ ap (λ (r : List BlockDesc). r ++ reads (b + 1) n)
                      (blocks_of-append sent (wf ∷ [])
                        ∙ ap (λ (r : List BlockDesc). blocks_of sent ++ r) (append-nil grown))
                  ∙ append_assoc (blocks_of sent) grown (reads (b + 1) n)
                  ∙ ap (λ (r : List BlockDesc). blocks_of sent ++ r)
                      (append_assoc blocks (d ∷ []) (reads (b + 1) n)),
            )
      ]

  pub submit_all-reads :
      (sent : List Wavefront) × (submit_all sha beyond ctx ids ≡ some sent)
      × (are_sized sent ≡ true)
      × (blocks_of sent ≡ reads 0 (blocks_for ctx.model.tokens_per_block (length ids)))
  unfolding submit_all
  submit_all-reads =
      let n = blocks_for ctx.model.tokens_per_block (length ids) in
      let (blocks, sent, e, few, sized, all) = gather_lem 0 n [] [] (omega arith) refl in
      let wf : Wavefront = record { flags = kv_fetch; blocks = blocks } in
      elim (ℕ_discrete (length blocks) 0) [
        | yes none_left ↦
            let empty : blocks ≡ [] = length_zero blocks none_left in
            (
              sent,
              rw (e, none_left, submit_all) refl,
              sized,
              sym (append-nil (blocks_of sent))
                  ∙ ap (λ (r : List BlockDesc). blocks_of sent ++ r) (sym empty)
                  ∙ all,
            )
        | no some_left ↦ (
          sent ++ (wf ∷ []),
          rw (e, has_wf, ==_of_ne (length blocks) 0 some_left, submit_all) refl,
          are_sized-append sent wf sized (omega (arith, some_left)) (omega (arith, few)),
          blocks_of-append sent (wf ∷ [])
              ∙ ap (λ (r : List BlockDesc). blocks_of sent ++ r) (append-nil blocks)
              ∙ all,
        )
      ]

  pub get-reads :
      (b n i : ℕ) → i < n → get_or (reads b n) i no_block ≡ fetch_desc sha beyond ctx ids (b + i)
  get-reads b zero i lt = absurd (omega arith)
  get-reads b (suc n) zero lt =
      let e : b ≡ b + 0 = omega arith in ap (fetch_desc sha beyond ctx ids) e
  get-reads b (suc n) (suc i) lt =
      let e : b + 1 + i ≡ b + suc i = omega arith in
      get-reads (b + 1) n i (omega arith) ∙ ap (fetch_desc sha beyond ctx ids) e
