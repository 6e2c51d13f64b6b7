-- ===== src/Dispatch/Laws.antt =====
-- What the dispatch policy decides, and its books.
use xpu_kllm.Prelude.{
  ℕ, ◌+◌, ◌%◌, ◌^◌, ◌≤◌, ◌≡◌, ◌↔◌, ◌⊎◌, refl, arith, Bool, true, List, [], ◌∷◌, map, total,
}
use xpu_kllm.Dispatch.{
  Target, cpu, gpu, Config, Dispatch, create, decide, Event, request, complete, step,
}

abbrev pub on_gpu : Target → ℕ
on_gpu cpu = 0
on_gpu gpu = 1

abbrev pub on_cpu : Target → ℕ
on_cpu cpu = 1
on_cpu gpu = 0

module _ {F : Type 0} where
  -- The CPU is chosen exactly for a sequence within the threshold that hits the cache or meets a
  -- saturated GPU queue; so never for a longer one.
  pub decide_iff :
      (d : Dispatch F) (seq_len : ℕ) (hit : Bool)
      → ((decide d seq_len hit).0 ≡ cpu) ↔ (
          (seq_len ≤ d.cfg.cpu_seq_threshold)
          × ((hit ≡ true) ⊎ (d.cfg.gpu_queue_max ≤ d.state.gpu_queue_depth)))
  unfolding decide
  decide_iff d seq_len hit = (λ h. ground arith, λ h. ground arith)

  -- The books: every request is counted once as a hit or a miss and once as dispatched to a side.
  pub record Balanced (d : Dispatch F) : Type 0 where
    pub sides : d.state.total_requests ≡ (d.state.cpu_dispatches + d.state.gpu_dispatches) % 2 ^ 64
    pub kinds : d.state.total_requests ≡ (d.state.cache_hits + d.state.cache_misses) % 2 ^ 64

  step-Balanced : (d : Dispatch F) (e : Event) → Balanced d → Balanced (step d e)
  unfolding step
  step-Balanced d (request seq_len hit) b = ground arith
  step-Balanced d complete b = ground arith

  pub run : Dispatch F → List Event → Dispatch F
  run d [] = d
  run d (e ∷ es) = run (step d e) es

  run-Balanced_from : (d : Dispatch F) (es : List Event) → Balanced d → Balanced (run d es)
  unfolding run
  run-Balanced_from d [] b = b
  run-Balanced_from d (e ∷ es) b = run-Balanced_from (step d e) es (step-Balanced d e b)

  create-Balanced :
      (is_zero : F → Bool) (default_hit : F) (c : Config F)
      → Balanced (create is_zero default_hit c)
  unfolding create
  create-Balanced is_zero default_hit c = omega arith

  -- The books balance modulo 2 ^ 64 after any history of requests and completions.
  pub run-Balanced :
      (is_zero : F → Bool) (default_hit : F) (c : Config F) (es : List Event)
      → Balanced (run (create is_zero default_hit c) es)
  run-Balanced is_zero default_hit c es =
      run-Balanced_from _ es (create-Balanced is_zero default_hit c)

  -- The targets that a history of requests is given, in order.
  abbrev pub decisions : Dispatch F → List (ℕ × Bool) → List Target
  decisions d [] = []
  decisions d (r ∷ rs) = (decide d r.0 r.1).0 ∷ decisions (decide d r.0 r.1).1 rs

  -- The depth and the dispatches after `g` decisions for the GPU and `c` for the CPU.
  abbrev Counts : ℕ → ℕ → Dispatch F → Type 0
  Counts g c d =
      (d.state.gpu_queue_depth ≡ g % 2 ^ 32)
      × (d.state.gpu_dispatches ≡ g % 2 ^ 64)
      × (d.state.cpu_dispatches ≡ c % 2 ^ 64)

  decide-Counts :
      (d : Dispatch F) (seq_len : ℕ) (hit : Bool) (g c : ℕ)
      → Counts g c d
      → let t = (decide d seq_len hit).0 in
        Counts (g + on_gpu t) (c + on_cpu t) (decide d seq_len hit).1
  unfolding decide
  decide-Counts d seq_len hit g c (x, y, z) = (ground arith, ground arith, ground arith)

  run-Counts :
      (d : Dispatch F) (rs : List (ℕ × Bool)) (g c : ℕ)
      → Counts g c d
      → Counts
          (g + total on_gpu (decisions d rs))
          (c + total on_cpu (decisions d rs))
          (run d (map (λ r. request r.0 r.1) rs))
  unfolding run step
  run-Counts d [] g c (x, y, z) = (omega (arith, x), omega (arith, y), omega (arith, z))
  run-Counts d (r ∷ rs) g c h =
      let t = (decide d r.0 r.1).0 in
      let (x, y, z) =
        run-Counts (decide d r.0 r.1).1 rs (g + on_gpu t) (c + on_cpu t)
          (decide-Counts d r.0 r.1 g c h) in
      (omega (arith, x), omega (arith, y), omega (arith, z))

  -- As long as no caller reports a completion, after any sequence of requests from the creation the
  -- queue depth is the number of GPU decisions that were returned, modulo 2 ^ 32: it never falls
  -- back when the GPU is done. The counters of GPU and CPU dispatches are the numbers of these
  -- decisions, modulo 2 ^ 64.
  pub depth_of_requests :
      (is_zero : F → Bool) (default_hit : F) (c : Config F) (rs : List (ℕ × Bool))
      → let created = create is_zero default_hit c in
        let d = run created (map (λ r. request r.0 r.1) rs) in
        let gpus = total on_gpu (decisions created rs) in
        let cpus = total on_cpu (decisions created rs) in
        (d.state.gpu_queue_depth ≡ gpus % 2 ^ 32)
        × (d.state.gpu_dispatches ≡ gpus % 2 ^ 64)
        × (d.state.cpu_dispatches ≡ cpus % 2 ^ 64)
  unfolding create
  depth_of_requests is_zero default_hit c rs =
      let (x, y, z) = run-Counts (create is_zero default_hit c) rs 0 0 (refl, refl, refl) in
      (omega (arith, x), omega (arith, y), omega (arith, z))
