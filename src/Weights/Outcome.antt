-- ===== src/Weights/Outcome.antt =====
-- The ways a load ends.
use xpu_kllm.Prelude.{
  ℕ, ◌≡◌, refl, Bool, true, false, ◌⊎◌, inl, inr, Bool-cases, Option-cases, List, Option, none,
  some,
}
use xpu_kllm.Prelude.Words.{add64}
use xpu_kllm.Weights.{
  Component, embed_size, Event, Answers, Layer, Loader, alloc_weight, load_layers, load_all,
}

module _ (answers : Answers) (component_key : ℕ → Component → List ℕ) (ld : Loader)
    (h : List Event) where
  abbrev pub embed : Option ℕ × List Event
  embed = alloc_weight answers component_key ld h (embed_size ld.cfg)

  abbrev pub body : Bool × List Layer × ℕ × ℕ × List Event
  body =
      load_layers answers component_key ld 0 ld.layers ld.progress.layers_loaded
        (add64 ld.progress.bytes_loaded (embed_size ld.cfg)) embed.1

  abbrev pub head : Option ℕ × List Event
  head = alloc_weight answers component_key ld body.4 (embed_size ld.cfg)

  -- The loader behind the layers' loop.
  abbrev pub stopped : ℕ → Loader
  stopped p = record ld {
    embedding = some p;
    layers = body.1;
    progress = record ld.progress { layers_loaded = body.2; bytes_loaded = body.3 };
  }

  abbrev pub final : ℕ → ℕ → Loader
  final p q = record (stopped p) {
    lm_head = some q;
    progress = record (stopped p).progress {
      bytes_loaded = add64 body.3 (embed_size ld.cfg);
      complete = true;
    };
  }

  -- No memory for the embedding, a layer that fails, no memory for the output matrix, or success.
  pub load_all_cases :
      ((embed.0 ≡ none)
        × (load_all answers component_key ld h ≡ (false, record ld { embedding = none }, embed.1)))
      ⊎ ((p : ℕ) × (embed.0 ≡ some p)
          × (((body.0 ≡ false) × (load_all answers component_key ld h ≡ (false, stopped p, body.4)))
              ⊎ ((body.0 ≡ true)
                  × (((head.0 ≡ none)
                        × (load_all answers component_key ld h
                            ≡ (false, record (stopped p) { lm_head = none }, head.1)))
                      ⊎ ((q : ℕ) × (head.0 ≡ some q)
                          × (load_all answers component_key ld h ≡ (true, final p q, head.1)))))))
  unfolding load_all
  load_all_cases = elim (Option-cases embed.0) [
    | inl f ↦ inl (f, rw (f, load_all) refl)
    | inr (p, f) ↦ inr (
      p,
      f,
      elim (Bool-cases body.0) [
        | inr bad ↦ inl (bad, rw (f, bad, load_all) refl)
        | inl good ↦ inr (
          good,
          elim (Option-cases head.0) [
            | inl k ↦ inl (k, rw (f, good, k, load_all) refl)
            | inr (q, k) ↦ inr (q, k, rw (f, good, k, load_all) refl)
          ],
        )
      ],
    )
  ]
