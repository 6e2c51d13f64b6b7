-- ===== src/Tokenizer/Output.antt =====
-- Phase 3 of the tokenizer: the tokens of a prompt in the token ring.
use xpu_kllm.Prelude.{
  ℕ, ◌-◌, ◌≤◌, ◌<◌, ◌≡◌, refl, sym, ap, ◌∙◌, arith, subst, Bool, true, false, ◌⊎◌, inl, inr,
  Bool-cases, bit_and, List, [], ◌∷◌, ◌++◌, append-nil, take, Option, none, some, Rc, ok, fail,
  length, set, ltb, ◌==◌, ==_of_ne, le→ltb, lt→ltb, if◌then◌else◌,
}
use xpu_kllm.Prelude.Words.{add32}
use xpu_kllm.Ring.{Ring, mask, produce}
use xpu_kllm.Ring.Fifo.{push, fit, fit_nil, fit_cons}
use xpu_kllm.Ring.Inv.{IsValid, produce-IsValid}
use xpu_kllm.Ring.Refine.{contents, produce_refines}
use xpu_kllm.Tokenizer.{MergeVal, fill, put_tokens, encode, tokenize, max_prompt_len}

-- The ring with the tokens stored, before the sequence number moves.
unfoldable pub filled : Ring → List ℕ → Ring
unfolding fill mask
filled r toks =
    let (slots', head') = fill (mask r) r.tail r.slots r.head toks in
    record r { slots = slots'; head = head' }

abbrev stored : Ring → ℕ → Ring
stored r x = record r { head = bit_and (add32 r.head 1) (mask r); slots = set r.slots r.head x }

-- The loop is a repeated `kllm_ring_produce` that stops at the first refusal.
filled_cons :
    (r : Ring) (x : ℕ) (xs : List ℕ)
    → ((produce r x ≡ (fail, r)) × (filled r (x ∷ xs) ≡ r))
      ⊎ ((produce r x ≡ (ok, stored r x)) × (filled r (x ∷ xs) ≡ filled (stored r x) xs))
unfolding filled fill produce mask
filled_cons r x xs = elim (Bool-cases (bit_and (add32 r.head 1) (mask r) == r.tail)) [
  | inl full ↦ inl (rw full refl, rw full refl)
  | inr room ↦ inr (rw room refl, rw room refl)
]

push_full : (cap x : ℕ) (q q' : List ℕ) → (fail, q') ≡ push cap q x → cap ≤ length q
unfolding push
push_full cap x q q' e = ground arith

push_room :
    (cap x : ℕ) (q q' : List ℕ)
    → (ok, q') ≡ push cap q x
    → q' ≡ (if ltb (length q) cap then q ++ (x ∷ []) else q)
unfolding push
push_room cap x q q' e = ground arith

fit_full : (cap : ℕ) (q xs : List ℕ) → cap ≤ length q → fit cap q xs ≡ q
unfolding fit
fit_full cap q xs h =
    let e : cap - length q ≡ 0 = omega arith in ap (λ (k : ℕ). q ++ take k xs) e ∙ append-nil q

pub filled_lem :
    {bits : ℕ} (r : Ring) (toks : List ℕ)
    → IsValid bits r
    → IsValid bits (filled r toks)
      × (contents (filled r toks) ≡ fit (r.slot_count - 1) (contents r) toks)
unfolding filled fill
filled_lem {bits} r [] v = (v, sym (fit_nil (r.slot_count - 1) (contents r)))
filled_lem {bits} r (x ∷ xs) v = elim (filled_cons r x xs) [
  | inl (full, same) ↦ (
    subst (IsValid bits) (sym same) v,
    ap contents same
        ∙ sym (
            fit_full (r.slot_count - 1) (contents r) (x ∷ xs)
              (push_full (r.slot_count - 1) x (contents r) (contents r) (pushed _ full))),
  )
  | inr (room, more) ↦
      let (v', rest) =
        filled_lem (stored r x) xs (subst (λ p. IsValid bits p.1) room (produce-IsValid x v)) in
      (
        subst (IsValid bits) (sym more) v',
        ap contents more
            ∙ rest
            ∙ ap (λ (q : List ℕ). fit (r.slot_count - 1) q xs)
                (push_room (r.slot_count - 1) x (contents r) (contents (stored r x))
                  (pushed _ room))
            ∙ fit_cons (r.slot_count - 1) x (contents r) xs,
      )
]
  where
    pushed :
        (p : Rc × Ring)
        → produce r x ≡ p
        → (p.0, contents p.1) ≡ push (r.slot_count - 1) (contents r) x
    pushed p e = ap (λ (p : Rc × Ring). (p.0, contents p.1)) (sym e) ∙ produce_refines x v

module _ (byte_to_token : ℕ → Option ℕ) (merge_table : ℕ → ℕ → Option MergeVal) (buf : List ℕ) where
  -- A prompt of 1 to 4096 bytes that has an encoding, and a sound token ring: the tokens go
  -- behind those that wait, as many as fit, the ring stays sound, and the result is the number of
  -- tokens of the encoding, also where some of them did not fit.
  pub tokenize_lem :
      {bits : ℕ} (r : Ring) (toks : List ℕ)
      → IsValid bits r
      → 0 < length buf
      → length buf ≤ max_prompt_len
      → encode byte_to_token merge_table buf ≡ some toks
      → (r' : Ring) × (tokenize byte_to_token merge_table true buf (some r)
          ≡ (some (length toks), some r'))
        × IsValid bits r'
        × (contents r' ≡ fit (r.slot_count - 1) (contents r) toks)
  unfolding tokenize put_tokens filled mask contents
  tokenize_lem {bits} r toks v low high e =
      let (v', q) = filled_lem r toks v in
      (
        put_tokens r toks,
        rw
            (
              ==_of_ne (length buf) 0 (omega arith),
              le→ltb max_prompt_len (length buf) high,
              e,
              ==_of_ne r.slot_count 0 (omega (arith, v.head_in)),
            )
            refl,
        record {
          small = v'.small;
          power = v'.power;
          head_in = v'.head_in;
          tail_in = v'.tail_in;
          storage = v'.storage;
        },
        q,
      )

  -- An empty prompt, one above 4096 bytes, one with a byte that the map does not know and a
  -- missing scratch entry give -1, and leave the token ring as it was.
  pub tokenize_refused :
      (scratch : Bool) (ring : Option Ring)
      → ((length buf ≡ 0) ⊎ (max_prompt_len < length buf))
        ⊎ ((scratch ≡ false) ⊎ (encode byte_to_token merge_table buf ≡ none))
      → tokenize byte_to_token merge_table scratch buf ring ≡ (none, ring)
  unfolding tokenize
  tokenize_refused scratch ring (inl (inl h)) = rw h refl
  tokenize_refused scratch ring (inl (inr h)) = ground (arith, lt→ltb max_prompt_len (length buf) h)
  tokenize_refused scratch ring (inr (inl h)) = ground (arith, h)
  tokenize_refused scratch ring (inr (inr h)) = ground (arith, h)
