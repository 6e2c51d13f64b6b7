-- ===== src/Reactor/Shutdown.antt =====
-- What a start of the reactor and its shutdown together give back.
use xpu_kllm.Prelude.{
  ℕ, ◌+◌, ◌≡◌, refl, arith, Rc, Bool, true, false, [], ◌∷◌, inl, inr, Option-cases, Bool-cases,
  total, ◌==◌,
}
use xpu_kllm.Ring.{token_ring_magic}
use xpu_kllm.Reactor.Startup.{
  Resource, chardev, token_ring, taken, given, Answers, Context, default_model, zeroed,
  map_token_ring, behind_map, reactor_start, release_if, release_mapping, reactor_shutdown,
}
use xpu_kllm.Reactor.Accounts.{
  takes, gives, surplus, ring_mapped, steps, each, at_map, mapped_context, init-IsAccounted,
}

-- A start of the reactor and its shutdown give back what the start took: of every resource, each
-- descriptor or address `k` as often as it was taken (resources without one have 0), when every step succeeds and also when the arena or the poller is refused. A
-- shutdown after a start that failed elsewhere gives back once too often: descriptor 0 when the
-- token ring was not mapped, the arena when the index or the policy was not made, and the index
-- when the policy was not made.
pub start-shutdown :
    {F : Type 0} (is_zero : F → Bool) (default_hit : F) (env : Answers) (r : Resource) (k : ℕ)
    → let started = reactor_start is_zero default_hit env zeroed [] in
      let hist = (reactor_shutdown started.0 started.1).1 in
      total (gives r k) hist ≡ total (takes r k) hist + surplus env r k
unfolding reactor_shutdown map_token_ring behind_map release_if release_mapping
start-shutdown is_zero default_hit env r k =
    let split = at_map is_zero default_hit env k in
    let none_yet : Context _ = record zeroed { model = default_model } in
    each is_zero default_hit env k (ring_mapped env) (steps env)
      (reactor_start is_zero default_hit env zeroed []) r
      (elim (Option-cases env.opened) [
        | inl e ↦
            split false (Rc.fail, none_yet, []) (rw e refl) (rw e refl)
              (ground arith, ground arith, ground arith, ground arith, ground arith, ground arith)
        | inr (fd, e) ↦ elim (Option-cases env.mapped) [
          | inl m ↦
              split false (Rc.fail, none_yet, given chardev fd ∷ taken chardev fd ∷ [])
                (rw (e, m) refl) (rw (e, m) refl)
                (ground arith, ground arith, ground arith, ground arith, ground arith, ground arith)
          | inr (map, m) ↦ elim (Bool-cases (env.magic == token_ring_magic)) [
            | inr w ↦
                split false
                  (
                    Rc.fail,
                    none_yet,
                    given chardev fd
                        ∷ given token_ring map
                        ∷ taken token_ring map
                        ∷ taken chardev fd
                        ∷ [],
                  )
                  (rw (e, m, w) refl) (rw (e, m, w) refl)
                  (
                    ground arith,
                    ground arith,
                    ground arith,
                    ground arith,
                    ground arith,
                    ground arith,
                  )
            | inl w ↦
                split true
                  (
                    Rc.ok,
                    mapped_context is_zero default_hit env k fd map,
                    taken token_ring map ∷ taken chardev fd ∷ [],
                  )
                  (rw (e, m, w) refl) (rw (e, m, w) refl)
                  (init-IsAccounted is_zero default_hit env k fd map)
          ]
        ]
      ])
