-- ===== src/Tests/Starts.antt =====
-- Starts of the reactor.
use xpu_kllm.Prelude.{
  ℕ, ◌+◌, ◌≡◌, ◌↔◌, refl, arith, inr, Bool, true, false, List, [], none, some, replicate, total,
  ◌==◌,
}
use xpu_kllm.Arena
use xpu_kllm.Arena.Alloc.{is_free}
use xpu_kllm.Index
use xpu_kllm.Index.{Index, empty_entry, make_room, insert}
use xpu_kllm.Index.Runs.{begin}
use xpu_kllm.Ring.{token_ring_magic}
use xpu_kllm.Reactor.Startup.{
  Answers, arena, index_capacity, arena_bytes, default_model, zeroed, reactor_start,
  reactor_shutdown, map_token_ring, init_kvcache, behind_map, behind_init, register, make_index,
  make_policy,
}
use xpu_kllm.Reactor.Accounts.{takes, gives, surplus}
use xpu_kllm.Reactor.Shutdown.{start-shutdown}
use xpu_kllm.Reactor.Cache.{start-make_room}

abbrev is_zero : ℕ → Bool
is_zero h = h == 0

-- Every step succeeds, the arena without huge pages.
abbrev healthy : Answers
healthy = record {
  opened = some 3;
  mapped = some 8192;
  magic = token_ring_magic;
  huge = none;
  plain = some 4096;
  arena_allocated = true;
  bitmap_allocated = true;
  index_allocated = true;
  dispatch_allocated = true;
  registered = true;
}

-- The policy is not allocated.
abbrev refused : Answers
refused = record healthy { dispatch_allocated = false }

start-shutdown_example :
    let started = reactor_start is_zero 8 refused zeroed [] in
    let hist = (reactor_shutdown started.0 started.1).1 in
    total (gives arena 0) hist ≡ total (takes arena 0) hist + surplus refused arena 0
start-shutdown_example = start-shutdown is_zero 8 refused arena 0

abbrev cache : Index
cache = record {
  entries = replicate index_capacity empty_entry;
  capacity = index_capacity;
  mask = 65535;
  occupied = 0;
  arena = Arena.made default_model arena_bytes 4096;
  stats = record {
    hits = 0;
    misses = 0;
    evictions = 0;
    insertions = 0;
    occupied = 0;
    capacity = index_capacity;
  };
}

cache_started : (reactor_start is_zero 8 healthy zeroed []).0.cache_idx ≡ some cache
unfolding reactor_start map_token_ring init_kvcache behind_map behind_init register make_index
    make_policy Index.create Arena.create Arena.made Arena.align_up Arena.block_total_bytes
    Arena.block_kv_bytes Arena.block_scale_bytes
cache_started = refl

start-make_room_example :
    (cache.arena.total_slots ≡ 96)
    × (make_room cache ≡ cache)
    × ((h : List ℕ) (now : ℕ)
        → ((insert cache h now).0 ≡ none) ↔ ((slot : ℕ) → is_free cache.arena slot ≡ false))
start-make_room_example =
    start-make_room is_zero 8 healthy 4096 cache cache (inr (refl, refl)) (omega arith)
      cache_started begin
