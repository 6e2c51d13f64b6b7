-- ===== src/Reactor/Cache.antt =====
-- The cache of a started reactor: 4 GiB of blocks of the default model under an index of 65536
-- entries.
use xpu_kllm.Prelude.{
  ℕ, ◌+◌, ◌/◌, ◌^◌, ◌<◌, ◌≡◌, ◌↔◌, refl, sym, ap, subst, ◌∙◌, arith, Bool, true, false, List, [],
  Option, none, some, ◌⊎◌, inl, inr, Option-cases,
}
use xpu_kllm.Arena
use xpu_kllm.Arena.{Arena, align_up, block_total_bytes}
use xpu_kllm.Arena.Alloc
use xpu_kllm.Arena.Alloc.{is_free}
use xpu_kllm.Arena.Create.{create_lem}
use xpu_kllm.Index
use xpu_kllm.Index.{Index, make_room, insert}
use xpu_kllm.Index.Runs.{Reaches}
use xpu_kllm.Index.Occupancy.{IsScarce}
use xpu_kllm.Index.Scarce.{scarce_never_evicts, created}
use xpu_kllm.Reactor.Startup.{
  Answers, arena_bytes, index_capacity, default_model, zeroed, make_index, map_token_ring,
  init_kvcache, behind_init, behind_map, register, reactor_start,
}

allocated :
    (huge plain : Option ℕ) (b c : Bool) (a : Arena)
    → Arena.create default_model arena_bytes b huge plain c ≡ some a
    → Arena.create default_model arena_bytes true huge plain true ≡ some a
unfolding Arena.create
allocated huge plain false c a e = absurd (ground (arith, e))
allocated huge plain true false a e = absurd (ground (arith, e))
allocated huge plain true true a e = e

block_size : align_up (block_total_bytes default_model) 4096 ≡ 44568576
unfolding align_up block_total_bytes Arena.block_kv_bytes Arena.block_scale_bytes
block_size = refl

module _ {F : Type 0} (is_zero : F → Bool) (default_hit : F) (env : Answers) where
  -- The index of a started reactor was created over the arena that was created before it.
  start_inversion :
      (start : Index)
      → (reactor_start is_zero default_hit env zeroed []).0.cache_idx ≡ some start
      → (a : Arena) × (Arena.create default_model arena_bytes env.arena_allocated env.huge env.plain
            env.bitmap_allocated
          ≡ some a)
        × (Index.create index_capacity a ≡ some start)
  unfolding reactor_start behind_map behind_init init_kvcache make_index register map_token_ring
  start_inversion start given = elim (Option-cases made) [
    | inl e ↦ absurd (ground (arith, e, given))
    | inr (a, e) ↦ (a, e, ground (arith, e, given))
  ]
    where
      made : Option Arena
      made =
          Arena.create default_model arena_bytes env.arena_allocated env.huge env.plain
            env.bitmap_allocated

-- The cache of a started reactor never evicts a block to make room: whatever lookups, insertions
-- and evictions came before, an insertion finds nothing to do in `make_room`, and it fails exactly
-- when no slot of the arena is free. The arena has 96 slots. The region must not wrap round.
pub start-make_room :
    {F : Type 0} (is_zero : F → Bool) (default_hit : F) (env : Answers) (base : ℕ)
    (start idx : Index)
    → (env.huge ≡ some base) ⊎ ((env.huge ≡ none) × (env.plain ≡ some base))
    → base + arena_bytes < 2 ^ 64
    → (reactor_start is_zero default_hit env zeroed []).0.cache_idx ≡ some start
    → Reaches start idx
    → (start.arena.total_slots ≡ 96)
      × (make_room idx ≡ idx)
      × ((h : List ℕ) (now : ℕ)
          → ((insert idx h now).0 ≡ none) ↔ ((slot : ℕ) → is_free idx.arena slot ≡ false))
start-make_room is_zero default_hit env base start idx mapped fits given r =
    let (a, made, indexed) = start_inversion is_zero default_hit env start given in
    let all : Arena.create default_model arena_bytes true env.huge env.plain true ≡ some a =
      allocated env.huge env.plain env.arena_allocated env.bitmap_allocated a made in
    let (a', made', va, free, slots) =
      create_lem default_model arena_bytes base env.huge env.plain mapped
        (omega (arith, block_size)) (omega (arith, block_size)) fits in
    let same : a' ≡ a = ground (arith, all, made') in
    let size : a.total_slots ≡ 96 =
      sym (ap (λ (x : Arena). x.total_slots) same)
      ∙ slots
      ∙ ap (λ (k : ℕ). arena_bytes / k) block_size in
    let va' = subst Alloc.IsValid same va in
    let scarce : IsScarce a.total_slots index_capacity = rw size (omega arith) in
    let (calm, room) =
      scarce_never_evicts 16 a start idx (omega arith) va' (omega (arith, size)) scarce indexed r in
    (ap (λ (x : Arena). x.total_slots) (created 16 a start indexed).0 ∙ size, calm, room)
