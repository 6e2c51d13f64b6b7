-- ===== src/Attention/Exact.antt =====
-- The AVX-512 kernel against the scalar one on natural numbers that a float holds exactly.
use xpu_kllm.Prelude.{
  ℕ, zero, suc, ◌+◌, ◌-◌, ◌*◌, ◌/◌, ◌%◌, ◌^◌, ◌≤◌, ◌<◌, ◌≡◌, refl, sym, ap, ap₂, subst, ◌∙◌, arith,
  true, false, List, ◌∷◌, some, get_elem?, length, leb, lt→leb, le→leb,
}
use xpu_kllm.Prelude.Words.{add32}
use xpu_kllm.Attention.{
  Floats, Vectors, Params, loaded, bf16_to_f32, dot_from, score_scalar, chunks_from, remainder_from,
  score_avx512,
}

-- The sum of the products of two lists, `val` giving the numbers.
abbrev pub dot_of : (ℕ → ℕ) → List ℕ → List ℕ → ℕ
dot_of val (x ∷ xs) (y ∷ ys) = val x * val y + dot_of val xs ys
dot_of val _ _ = 0

abbrev pub AllNatural : (ℕ → Type 0) → List ℕ → Type 0
AllNatural P xs = (i x : ℕ) → get_elem? xs i ≡ some x → P x

-- What IEEE 754 and the intrinsics say of natural numbers up to 2 ^ 24, all of which are floats:
-- sums and products of them that stay in this range are exact. `of_nat` is the float of a number and
-- `val` the number that the bits of a bfloat16 stand for; `IsCount` holds of a vector whose 16 lanes
-- are natural numbers with the given sum, to which `_mm512_dpbf16_ps` adds the products of 32
-- pairs, and of which `_mm512_reduce_add_ps` gives the sum.
pub record Naturals {F V : Type 0} (fl : Floats F) (vec : Vectors F V) : Type 1 where
  pub of_nat : ℕ → F
  pub val : ℕ → ℕ
  pub IsCount : V → ℕ → Type 0
  pub zero_lem : fl.zero_float ≡ of_nat 0
  pub add_lem : (a b : ℕ) → a + b ≤ 2 ^ 24 → fl.add (of_nat a) (of_nat b) ≡ of_nat (a + b)
  pub mul_lem :
      (a b : ℕ)
      → a ≤ 2 ^ 24
      → b ≤ 2 ^ 24
      → a * b ≤ 2 ^ 24
      → fl.mul (of_nat a) (of_nat b) ≡ of_nat (a * b)
  pub setzero_lem : IsCount vec.setzero 0
  pub dpbf16_lem :
      (acc : V) (n : ℕ) (xs ys : List ℕ)
      → IsCount acc n
      → length xs ≡ 32
      → length ys ≡ 32
      → AllNatural (λ b. (bf16_to_f32 fl b ≡ of_nat (val b)) × (val b ≤ 2 ^ 24)) xs
      → AllNatural (λ b. (bf16_to_f32 fl b ≡ of_nat (val b)) × (val b ≤ 2 ^ 24)) ys
      → n + dot_of val xs ys ≤ 2 ^ 24
      → IsCount (vec.dpbf16 acc xs ys) (n + dot_of val xs ys)
  pub reduce_add_lem :
      (acc : V) (n : ℕ) → IsCount acc n → n ≤ 2 ^ 24 → vec.reduce_add acc ≡ of_nat n

module _ {F V : Type 0} (fl : Floats F) (vec : Vectors F V) (nat : Naturals fl vec) where
  -- The bits of a natural number up to 2 ^ 24.
  abbrev pub IsNatural : ℕ → Type 0
  IsNatural b = (bf16_to_f32 fl b ≡ nat.of_nat (nat.val b)) × (nat.val b ≤ 2 ^ 24)

  -- The sum of the products of the elements `d`, ..., `d + n - 1` of two rows.
  abbrev pub row_dot : (ℕ → ℕ) → ℕ → (ℕ → ℕ) → ℕ → ℕ → ℕ → ℕ
  row_dot q a k b d zero = 0
  row_dot q a k b d (suc n) = nat.val (q (a + d)) * nat.val (k (b + d)) + row_dot q a k b (d + 1) n

  length-loaded : (m : ℕ → ℕ) (i n : ℕ) → length (loaded m i n) ≡ n
  unfolding loaded
  length-loaded m i zero = refl
  length-loaded m i (suc n) = omega (arith, length-loaded m (i + 1) n)

  loaded-IsNatural :
      (m : ℕ → ℕ) (i n : ℕ)
      → ((e : ℕ) → i ≤ e → e < i + n → IsNatural (m e))
      → AllNatural IsNatural (loaded m i n)
  unfolding loaded
  loaded-IsNatural m i zero h j x e = absurd (ground (arith, e))
  loaded-IsNatural m i (suc n) h zero x e =
      let same : m i ≡ x = ground (arith, e) in
      subst IsNatural same (h i (omega arith) (omega arith))
  loaded-IsNatural m i (suc n) h (suc j) x e =
      loaded-IsNatural m (i + 1) n (λ e le lt. h e (omega arith) (omega arith)) j x e

  module _ (q k : ℕ → ℕ) (a b head_dim : ℕ) (small : head_dim < 2 ^ 32 - 32)
      (queries : (e : ℕ) → e < head_dim → IsNatural (q (a + e)))
      (keys : (e : ℕ) → e < head_dim → IsNatural (k (b + e))) where
    row_dot_split :
        (d n m : ℕ) → row_dot q a k b d (n + m) ≡ row_dot q a k b d n + row_dot q a k b (d + n) m
    row_dot_split d zero m =
        let from : d ≡ d + 0 = omega arith in
        let to : 0 + m ≡ m = omega arith in ap₂ (row_dot q a k b) from to ∙ omega arith
    row_dot_split d (suc n) m =
        let size : suc n + m ≡ suc (n + m) = omega arith in
        let from : d + 1 + n ≡ d + suc n = omega arith in
        ap (row_dot q a k b d) size
        ∙ omega (arith, row_dot_split (d + 1) n m, ap (λ (x : ℕ). row_dot q a k b x m) from)

    dot_of-loaded :
        (i j d n : ℕ)
        → i ≡ a + d
        → j ≡ b + d
        → dot_of nat.val (loaded q i n) (loaded k j n) ≡ row_dot q a k b d n
    unfolding loaded
    dot_of-loaded i j d zero ei ej = refl
    dot_of-loaded i j d (suc n) ei ej =
        ap₂ (λ (x y : ℕ). x + y) (ap₂ (λ (x y : ℕ). nat.val (q x) * nat.val (k y)) ei ej)
          (dot_of-loaded (i + 1) (j + 1) (d + 1) n (omega (arith, ei)) (omega (arith, ej)))

    dot_lem :
        (d n acc : ℕ)
        → d + n ≤ head_dim
        → acc + row_dot q a k b d n ≤ 2 ^ 24
        → dot_from fl q a k b d n (nat.of_nat acc) ≡ nat.of_nat (acc + row_dot q a k b d n)
    unfolding dot_from
    dot_lem d zero acc le fit = ap nat.of_nat (omega arith)
    dot_lem d (suc n) acc le fit =
        let x = nat.val (q (a + d)) in
        let y = nat.val (k (b + d)) in
        let (ex, lx) = queries d (omega arith) in
        let (ey, ly) = keys d (omega arith) in
        let more : acc + x * y + row_dot q a k b (d + 1) n ≡ acc + row_dot q a k b d (suc n) =
          omega arith in
        let product : fl.mul (bf16_to_f32 fl (q (a + d))) (bf16_to_f32 fl (k (b + d)))
            ≡ nat.of_nat (x * y) =
          ap₂ fl.mul ex ey ∙ nat.mul_lem x y lx ly (omega (arith, fit)) in
        ap (dot_from fl q a k b (d + 1) n)
          (ap (fl.add (nat.of_nat acc)) product ∙ nat.add_lem acc (x * y) (omega (arith, fit)))
        ∙ dot_lem (d + 1) n (acc + x * y) (omega arith) (omega (arith, more, fit))
        ∙ ap nat.of_nat more

    -- The loop in steps of 32, with `r` steps left and more fuel than that.
    chunks_lem :
        (fuel d r m : ℕ) (acc : V)
        → head_dim ≡ d + r * 32
        → r < fuel
        → nat.IsCount acc m
        → m + row_dot q a k b d (r * 32) ≤ 2 ^ 24
        → (v : V) × (chunks_from fl vec head_dim q a k b fuel d acc ≡ (v, head_dim))
          × nat.IsCount v (m + row_dot q a k b d (r * 32))
    unfolding chunks_from
    chunks_lem zero d r m acc size lt counted fit = absurd (omega arith)
    chunks_lem (suc fuel) d zero m acc size lt counted fit =
        let none_left : 0 ≡ 0 * 32 = omega arith in
        let stop : leb (add32 d 32) head_dim ≡ false =
          lt→leb (add32 d 32) head_dim (omega (arith, size, small)) in
        let here : d ≡ head_dim = omega (arith, size) in
        let sum : m ≡ m + row_dot q a k b d (0 * 32) =
          omega (arith, ap (row_dot q a k b d) none_left) in
        (acc, rw stop (ap (λ (x : ℕ). (acc, x)) here), subst (nat.IsCount acc) sum counted)
    chunks_lem (suc fuel) d (suc r) m acc size lt counted fit =
        let inside : d + 32 ≤ head_dim = omega (arith, size) in
        let next : add32 d 32 ≡ d + 32 = omega (arith, inside, small) in
        let more : leb (add32 d 32) head_dim ≡ true =
          le→leb (add32 d 32) head_dim (omega (arith, next, inside)) in
        let xs = loaded q (a + d) 32 in
        let ys = loaded k (b + d) 32 in
        let whole : 32 + r * 32 ≡ suc r * 32 = omega arith in
        let dot : dot_of nat.val xs ys ≡ row_dot q a k b d 32 =
          dot_of-loaded (a + d) (b + d) d 32 refl refl in
        let split : row_dot q a k b d (suc r * 32)
            ≡ row_dot q a k b d 32 + row_dot q a k b (d + 32) (r * 32) =
          ap (row_dot q a k b d) (sym whole) ∙ row_dot_split d 32 (r * 32) in
        let shift : row_dot q a k b (add32 d 32) (r * 32) ≡ row_dot q a k b (d + 32) (r * 32) =
          ap (λ (x : ℕ). row_dot q a k b x (r * 32)) next in
        let counted' : nat.IsCount (vec.dpbf16 acc xs ys) (m + dot_of nat.val xs ys) =
          nat.dpbf16_lem acc m xs ys counted (length-loaded q (a + d) 32)
            (length-loaded k (b + d) 32)
            (loaded-IsNatural q (a + d) 32 (λ e le lt.
              let there : a + (e - a) ≡ e = omega (arith, le) in
              subst (λ (x : ℕ). IsNatural (q x)) there
                (queries (e - a) (omega (arith, le, lt, inside)))))
            (loaded-IsNatural k (b + d) 32 (λ e le lt.
              let there : b + (e - b) ≡ e = omega (arith, le) in
              subst (λ (x : ℕ). IsNatural (k x)) there
                (keys (e - b) (omega (arith, le, lt, inside)))))
            (omega (arith, dot, split, fit)) in
        let (v, e, done) =
          chunks_lem fuel (add32 d 32) r (m + dot_of nat.val xs ys) (vec.dpbf16 acc xs ys)
            (omega (arith, next, size)) (omega (arith, lt)) counted'
            (omega (arith, dot, split, shift, fit)) in
        (v, rw more e, subst (nat.IsCount v) (omega (arith, dot, split, shift)) done)

  -- One score.
  pub score_avx512_lem :
      (p : Params F) (q k : ℕ → ℕ) (a b : ℕ)
      → p.head_dim < 2 ^ 32 - 32
      → p.head_dim % 32 ≡ 0
      → ((e : ℕ) → e < p.head_dim → IsNatural (q (a + e)))
      → ((e : ℕ) → e < p.head_dim → IsNatural (k (b + e)))
      → row_dot q a k b 0 p.head_dim ≤ 2 ^ 24
      → score_avx512 fl vec p q k a b ≡ score_scalar fl p q k a b
  unfolding score_avx512 score_scalar remainder_from
  score_avx512_lem p q k a b small whole queries keys fit =
      let n = p.head_dim / 32 in
      let size : n * 32 ≡ p.head_dim = omega (arith, whole) in
      let start : p.head_dim ≡ 0 + n * 32 = omega (arith, size) in
      let same : row_dot q a k b 0 (n * 32) ≡ row_dot q a k b 0 p.head_dim =
        ap (row_dot q a k b 0) size in
      let total = row_dot q a k b 0 p.head_dim in
      let (v, e, counted) =
        chunks_lem q k a b p.head_dim small queries keys (n + 1) 0 n 0 vec.setzero start
          (omega arith) nat.setzero_lem (omega (arith, same, fit)) in
      let sum : vec.reduce_add v ≡ nat.of_nat total =
        nat.reduce_add_lem v total (subst (nat.IsCount v) (omega (arith, same)) counted) fit in
      let none_left : p.head_dim - p.head_dim ≡ 0 = omega arith in
      let scalar : dot_from fl q a k b 0 p.head_dim fl.zero_float ≡ nat.of_nat total =
        ap (dot_from fl q a k b 0 p.head_dim) nat.zero_lem
        ∙ dot_lem q k a b p.head_dim small queries keys 0 p.head_dim 0 (omega arith)
            (omega (arith, fit))
        ∙ ap nat.of_nat (omega arith) in
      ap
        (λ (r : V × ℕ).
          remainder_from fl vec p.scale q a k b r.1 (p.head_dim - r.1)
            (fl.mul (vec.reduce_add r.0) p.scale))
        e
      ∙ ap
          (λ (j : ℕ).
            remainder_from fl vec p.scale q a k b p.head_dim j (fl.mul (vec.reduce_add v) p.scale))
          none_left
      ∙ ap (λ (x : F). fl.mul x p.scale) (sum ∙ sym scalar)
