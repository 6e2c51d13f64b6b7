-- ===== src/Reactor/Accounts.antt =====
-- What a history of the reactor takes and gives back, counted resource by resource.
use xpu_kllm.Prelude.{
  ℕ, ◌+◌, ◌≡◌, refl, arith, sym, subst, Rc, Bool, true, false, not, ◌&&◌, List, [], ◌∷◌, Option,
  none, some, inl, inr, Option-cases, Bool-cases, total, ◌==◌, if◌then◌else◌,
}
use xpu_kllm.Arena
use xpu_kllm.Arena.{Arena}
use xpu_kllm.Index
use xpu_kllm.Index.{Index}
use xpu_kllm.Dispatch.{Dispatch}
use xpu_kllm.Ring.{token_ring_magic}
use xpu_kllm.Reactor.Startup.{
  Resource, chardev, token_ring, arena, cache_index, policy, poller, Event, taken, given, stopped,
  Answers, Context, arena_bytes, index_capacity, default_model, zeroed, make_index, make_policy,
  map_token_ring, init_kvcache, register, behind_init, behind_map, reactor_start, release_if,
  release_mapping, reactor_shutdown,
}

abbrev number : Resource → ℕ
number chardev = 0
number token_ring = 1
number arena = 2
number cache_index = 3
number policy = 4
number poller = 5

-- How often resource `r` is taken, or given back, with descriptor or address `k`.
abbrev pub takes : Resource → ℕ → Event → ℕ
takes r k (taken q n) = if (number r == number q) && (n == k) then 1 else 0
takes r k (given q n) = 0
takes r k (stopped b) = 0

abbrev pub gives : Resource → ℕ → Event → ℕ
gives r k (taken q n) = 0
gives r k (given q n) = if (number r == number q) && (n == k) then 1 else 0
gives r k (stopped b) = 0

abbrev pub is_some : {A : Type 0} → Option A → Bool
is_some none = false
is_some (some a) = true

-- Whether the token ring is mapped and the arena is made.
abbrev pub ring_mapped : Answers → Bool
ring_mapped env = is_some env.opened && (is_some env.mapped && (env.magic == token_ring_magic))

abbrev pub arena_made : Answers → Bool
arena_made env = is_some (
    Arena.create default_model arena_bytes env.arena_allocated env.huge env.plain
      env.bitmap_allocated)

abbrev pub one_if : Bool → ℕ
one_if b = if b then 1 else 0

-- Whether the arena, the index and the policy can be made.
abbrev pub Steps : Type 0
Steps = Bool × Bool × Bool

abbrev pub steps : Answers → Steps
steps env = (arena_made env, env.index_allocated, env.dispatch_allocated)

-- How often a resource is given back beyond what was taken, when the ring is mapped or not.
-- It is one with number 0 only.
abbrev pub surplus_of : Bool → Steps → Resource → ℕ
surplus_of b (ar, ix, pol) chardev = one_if (not b)
surplus_of b (ar, ix, pol) token_ring = 0
surplus_of b (ar, ix, pol) arena = one_if (b && (ar && not (ix && pol)))
surplus_of b (ar, ix, pol) cache_index = one_if (b && (ar && (ix && not pol)))
surplus_of b (ar, ix, pol) policy = 0
surplus_of b (ar, ix, pol) poller = 0

abbrev pub surplus_at : Bool → Steps → Resource → ℕ → ℕ
surplus_at b t r k = if 0 == k then surplus_of b t r else 0

abbrev pub surplus : Answers → Resource → ℕ → ℕ
surplus env r k = surplus_at (ring_mapped env) (steps env) r k

index_made : (a : Arena) → (idx : Index) × (Index.create index_capacity a ≡ some idx)
unfolding Index.create
index_made a = (_, refl)

module _ {F : Type 0} (is_zero : F → Bool) (default_hit : F) (env : Answers) (k : ℕ) where
  -- The shutdown after a start that ended so.
  abbrev pub at_end : Context F × List Event → List Event
  at_end (ctx, hist) = (reactor_shutdown ctx hist).1

  abbrev pub IsSettled : Bool → Steps → Context F × List Event → Resource → Type 0
  IsSettled b t out r =
      total (gives r k) (at_end out) ≡ total (takes r k) (at_end out) + surplus_at b t r k

  abbrev pub IsAccounted : Bool → Steps → Context F × List Event → Type 0
  IsAccounted b t out =
      IsSettled b t out chardev
      × IsSettled b t out token_ring
      × IsSettled b t out arena
      × IsSettled b t out cache_index
      × IsSettled b t out policy
      × IsSettled b t out poller

  pub each :
      (b : Bool) (t : Steps) (out : Context F × List Event) (r : Resource)
      → IsAccounted b t out
      → IsSettled b t out r
  each b t out chardev (h, x, y, z, w, v) = h
  each b t out token_ring (x, h, y, z, w, v) = h
  each b t out arena (x, y, h, z, w, v) = h
  each b t out cache_index (x, y, z, h, w, v) = h
  each b t out policy (x, y, z, w, h, v) = h
  each b t out poller (x, y, z, w, v, h) = h

  -- The outcome of a step, put in its place.
  pub at_map :
      (b : Bool) (out : Rc × Context F × List Event)
      → ring_mapped env ≡ b
      → map_token_ring is_zero default_hit env (record zeroed { model = default_model }) [] ≡ out
      → IsAccounted b (steps env) (behind_map is_zero default_hit env out)
      → IsAccounted (ring_mapped env) (steps env) (reactor_start is_zero default_hit env zeroed [])
  unfolding reactor_start
  at_map b out m e h =
      subst
        (λ (x : Bool). IsAccounted x (steps env) (reactor_start is_zero default_hit env zeroed []))
        (sym m)
        (subst
          (λ (o : Rc × Context F × List Event).
            IsAccounted b (steps env) (behind_map is_zero default_hit env o))
          (sym e) h)

  at_init :
      (ctx : Context F) (hist : List Event) (t : Steps) (out : Rc × Context F × List Event)
      → steps env ≡ t
      → init_kvcache is_zero default_hit env ctx hist ≡ out
      → IsAccounted true t (behind_init is_zero default_hit env out)
      → IsAccounted true (steps env) (behind_map is_zero default_hit env (Rc.ok, ctx, hist))
  unfolding behind_map
  at_init ctx hist t out m e h =
      subst
        (λ (x : Steps). IsAccounted true x (behind_map is_zero default_hit env (Rc.ok, ctx, hist)))
        (sym m)
        (subst
          (λ (o : Rc × Context F × List Event).
            IsAccounted true t (behind_init is_zero default_hit env o))
          (sym e) h)

  -- The context in which the token ring is mapped.
  abbrev pub mapped_context : ℕ → ℕ → Context F
  mapped_context fd map = record zeroed {
    chardev_fd = some fd;
    ring = some map;
    model = default_model;
  }

  -- Everything is made, and the poller is registered or not.
  registered-IsAccounted :
      (fd map : ℕ) (ar : Arena) (idx : Index) (pol : Dispatch F)
      → IsAccounted true
          (true, true, true)
          (behind_init is_zero default_hit env (
            Rc.ok,
            record (mapped_context fd map) {
              arena = some ar;
              cache_idx = some idx;
              dispatch = some pol;
            },
            taken policy 0
                ∷ taken cache_index 0
                ∷ taken arena 0
                ∷ taken token_ring map
                ∷ taken chardev fd
                ∷ [],
          ))
  unfolding reactor_shutdown behind_init register release_if release_mapping
  registered-IsAccounted fd map ar idx pol = elim (Bool-cases env.registered) [
    | inl p ↦
        rw p (ground arith, ground arith, ground arith, ground arith, ground arith, ground arith)
    | inr p ↦
        rw p (ground arith, ground arith, ground arith, ground arith, ground arith, ground arith)
  ]

  policy_none : make_policy is_zero default_hit env ≡ none → env.dispatch_allocated ≡ false
  unfolding make_policy
  policy_none d = ground (arith, d)

  policy_some :
      (pol : Dispatch F)
      → make_policy is_zero default_hit env ≡ some pol
      → env.dispatch_allocated ≡ true
  unfolding make_policy
  policy_some pol d = ground (arith, d)

  pub init-IsAccounted :
      (fd map : ℕ)
      → IsAccounted true (steps env) (
          behind_map is_zero default_hit env
            (Rc.ok, mapped_context fd map, taken token_ring map ∷ taken chardev fd ∷ []))
  unfolding reactor_shutdown behind_init init_kvcache make_index make_policy register release_if
      release_mapping
  init-IsAccounted fd map =
      let ctx = mapped_context fd map in
      let hist : List Event = taken token_ring map ∷ taken chardev fd ∷ [] in
      let end = at_init ctx hist in
      elim (Option-cases made) [
        | inl a ↦
            end (false, env.index_allocated, env.dispatch_allocated)
              (Rc.fail, record ctx { arena = none }, hist) (rw a refl) (rw (a, init_kvcache) refl)
              (ground arith, ground arith, ground arith, ground arith, ground arith, ground arith)
        | inr (ar, a) ↦ elim (Bool-cases env.index_allocated) [
          | inr i ↦
              end (true, false, env.dispatch_allocated)
                (
                  Rc.fail,
                  record ctx { arena = some ar; cache_idx = none },
                  given arena 0 ∷ taken arena 0 ∷ hist,
                )
                (rw (a, i) refl) (rw (a, i, init_kvcache, make_index) refl)
                (ground arith, ground arith, ground arith, ground arith, ground arith, ground arith)
          | inl i ↦
              let (idx, j) = index_made ar in
              elim (Option-cases (make_policy is_zero default_hit env)) [
                | inl d ↦
                    end (true, true, false)
                      (
                        Rc.fail,
                        record ctx { arena = some ar; cache_idx = some idx; dispatch = none },
                        given arena 0
                            ∷ given cache_index 0
                            ∷ taken cache_index 0
                            ∷ taken arena 0
                            ∷ hist,
                      )
                      (rw (a, i, policy_none d) refl)
                      (rw (a, i, j, d, init_kvcache, make_index) refl)
                      (
                        ground arith,
                        ground arith,
                        ground arith,
                        ground arith,
                        ground arith,
                        ground arith,
                      )
                | inr (pol, d) ↦
                    end (true, true, true)
                      (
                        Rc.ok,
                        record ctx { arena = some ar; cache_idx = some idx; dispatch = some pol },
                        taken policy 0 ∷ taken cache_index 0 ∷ taken arena 0 ∷ hist,
                      )
                      (rw (a, i, policy_some pol d) refl)
                      (rw (a, i, j, d, init_kvcache, make_index) refl)
                      (registered-IsAccounted fd map ar idx pol)
              ]
        ]
      ]
    where
      made : Option Arena
      made =
          Arena.create default_model arena_bytes env.arena_allocated env.huge env.plain
            env.bitmap_allocated
