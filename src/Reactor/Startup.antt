-- ===== src/Reactor/Startup.antt =====
-- userspace/reactor/kllm_reactor.c: what the start of the reactor acquires, what it leaves behind
-- when a step fails, and what the shutdown gives back. The answers of the environment are a
-- record, its effects a history, the latest first. A pointer stays in the context after its object
-- is destroyed where the code leaves it there.
use xpu_kllm.Prelude.{
  ℕ, ◌*◌, Bool, true, false, List, ◌∷◌, Option, none, some, ◌==◌, if◌then◌else◌, Rc,
}
use xpu_kllm.Arena
use xpu_kllm.Arena.{Model, Arena}
use xpu_kllm.Index
use xpu_kllm.Index.{Index}
use xpu_kllm.Dispatch
use xpu_kllm.Dispatch.{Dispatch}
use xpu_kllm.Ring.{token_ring_magic}

-- What the reactor holds: a descriptor, a mapping, and objects.
pub data Resource : Type 0 where
  chardev token_ring arena cache_index policy poller : Resource

-- A resource taken or given back, with its descriptor or address (0 for an object), and
-- `spdk_app_stop`, with whether its argument is 0.
pub data Event : Type 0 where
  taken given : Resource → ℕ → Event
  stopped : Bool → Event

-- The answers of open and mmap, the magic found in the mapping, the mappings of the arena's region
-- with huge pages and without, the allocations, and the poller's registration.
pub record Answers : Type 0 where
  pub opened : Option ℕ
  pub mapped : Option ℕ
  pub magic : ℕ
  pub huge : Option ℕ
  pub plain : Option ℕ
  pub arena_allocated : Bool
  pub bitmap_allocated : Bool
  pub index_allocated : Bool
  pub dispatch_allocated : Bool
  pub registered : Bool

-- The descriptors and pointers of `struct kllm_reactor_ctx`; -1 and NULL are `none`.
pub record Context (F : Type 0) : Type 0 where
  pub chardev_fd : Option ℕ
  pub ring : Option ℕ
  pub poller : Bool
  pub arena : Option Arena
  pub cache_idx : Option Index
  pub dispatch : Option (Dispatch F)
  pub model : Model

abbrev pub arena_bytes : ℕ
arena_bytes = 4 * 1024 * 1024 * 1024

abbrev pub index_capacity : ℕ
index_capacity = 64 * 1024

abbrev pub default_model : Model
default_model = record { num_layers = 80; num_kv_heads = 8; head_dim = 128; tokens_per_block = 128 }

-- The static `g_ctx`: zeros, and so descriptor 0.
abbrev pub zeroed : {F : Type 0} → Context F
zeroed = record {
  chardev_fd = some 0;
  ring = none;
  poller = false;
  arena = none;
  cache_idx = none;
  dispatch = none;
  model = record { num_layers = 0; num_kv_heads = 0; head_dim = 0; tokens_per_block = 0 };
}

module _ {F : Type 0} (is_zero : F → Bool) (default_hit : F) where
  unfoldable pub map_token_ring : Answers → Context F → List Event → Rc × Context F × List Event
  map_token_ring env ctx hist = elim env.opened [
    | none ↦ (Rc.fail, ctx, hist)
    | some fd ↦ elim env.mapped [
      | none ↦ (Rc.fail, ctx, given chardev fd ∷ taken chardev fd ∷ hist)
      | some map ↦
          if env.magic == token_ring_magic
          then (
            Rc.ok,
            record ctx { chardev_fd = some fd; ring = some map },
            taken token_ring map ∷ taken chardev fd ∷ hist,
          )
          else (
            Rc.fail,
            ctx,
            given chardev fd
                ∷ given token_ring map
                ∷ taken token_ring map
                ∷ taken chardev fd
                ∷ hist,
          )
    ]
  ]

  -- `kllm_index_create` over the arena, given whether its memory is there.
  unfoldable pub make_index : Answers → Arena → Option Index
  make_index env a = if env.index_allocated then Index.create index_capacity a else none

  unfoldable pub make_policy : Answers → Option (Dispatch F)
  make_policy env =
      if env.dispatch_allocated
      then some (
          Dispatch.create is_zero default_hit (record {
            cpu_seq_threshold = 512;
            cache_hit_threshold = default_hit;
            gpu_queue_max = 64;
          }))
      else none

  unfoldable pub init_kvcache : Answers → Context F → List Event → Rc × Context F × List Event
  unfolding make_index make_policy
  init_kvcache env ctx hist =
      elim (Arena.create ctx.model arena_bytes env.arena_allocated env.huge env.plain
        env.bitmap_allocated) [
          | none ↦ (Rc.fail, record ctx { arena = none }, hist)
          | some a ↦ elim (make_index env a) [
            | none ↦ (
              Rc.fail,
              record ctx { arena = some a; cache_idx = none },
              given arena 0 ∷ taken arena 0 ∷ hist,
            )
            | some idx ↦ elim (make_policy env) [
              | none ↦ (
                Rc.fail,
                record ctx { arena = some a; cache_idx = some idx; dispatch = none },
                given arena 0 ∷ given cache_index 0 ∷ taken cache_index 0 ∷ taken arena 0 ∷ hist,
              )
              | some d ↦ (
                Rc.ok,
                record ctx { arena = some a; cache_idx = some idx; dispatch = some d },
                taken policy 0 ∷ taken cache_index 0 ∷ taken arena 0 ∷ hist,
              )
            ]
          ]
        ]

  unfoldable pub register : Answers → Context F → List Event → Context F × List Event
  register env ctx hist =
      if env.registered
      then (record ctx { poller = true }, taken poller 0 ∷ hist)
      else (record ctx { poller = false }, stopped false ∷ hist)

  -- The start behind `kllm_init_kvcache`, and behind `kllm_map_token_ring`.
  unfoldable pub behind_init : Answers → Rc × Context F × List Event → Context F × List Event
  unfolding register
  behind_init env (Rc.fail, ctx, hist) = (ctx, stopped false ∷ hist)
  behind_init env (Rc.ok, ctx, hist) = register env ctx hist

  unfoldable pub behind_map : Answers → Rc × Context F × List Event → Context F × List Event
  unfolding init_kvcache behind_init
  behind_map env (Rc.fail, ctx, hist) = (ctx, stopped false ∷ hist)
  behind_map env (Rc.ok, ctx, hist) = behind_init env (init_kvcache env ctx hist)

  unfoldable pub reactor_start : Answers → Context F → List Event → Context F × List Event
  unfolding map_token_ring behind_map
  reactor_start env ctx hist =
      behind_map env (map_token_ring env (record ctx { model = default_model }) hist)

-- The release of what a pointer or a descriptor says is there.
unfoldable pub release_if : {A : Type 0} → Option A → Event → List Event → List Event
release_if none e hist = hist
release_if (some a) e hist = e ∷ hist

-- The same for what is given back by its number.
unfoldable pub release_mapping : Resource → Option ℕ → List Event → List Event
release_mapping r none hist = hist
release_mapping r (some n) hist = given r n ∷ hist

unfoldable pub reactor_shutdown : {F : Type 0} → Context F → List Event → Context F × List Event
unfolding release_if release_mapping
reactor_shutdown ctx hist =
    let polled = if ctx.poller then given poller 0 ∷ hist else hist in
    let objects = release_if ctx.arena (given arena 0) (
      release_if ctx.cache_idx (given cache_index 0)
        (release_if ctx.dispatch (given policy 0) polled)) in
    let unmapped = release_mapping token_ring ctx.ring objects in
    let closed = release_mapping chardev ctx.chardev_fd unmapped in
    (record ctx { poller = false; ring = none; chardev_fd = none }, stopped true ∷ closed)
