-- ===== src/Index.antt =====
-- userspace/kvcache/cache_index.c: the content-addressed index of the cache's blocks, an
-- open-addressing table from hashes to slots of the arena. A hash is the list of its 32 bytes; the
-- time is an argument of the operations that read the clock.
pub mod Probing
pub mod Inv
pub mod Steps
pub mod Victim
pub mod Insert
pub mod Hits
pub mod Kept
pub mod Room
pub mod Gaps
pub mod Runs
pub mod Occupancy
pub mod Scarce
pub mod Again
use xpu_kllm.Prelude.{
  ℕ, zero, suc, ◌+◌, ◌-◌, ◌*◌, ◌^◌, bit_and, Bool, true, false, ◌&&◌, List, [], ◌∷◌, Option, none,
  some, get_or, set, replicate, ltb, leb, ◌==◌, if◌then◌else◌,
}
use xpu_kllm.Prelude.Words.{add32, sub32, add64}
use xpu_kllm.Arena.{Arena, alloc, free, slot_index, slot_ptr}

pub record Entry : Type 0 where
  pub hash : List ℕ
  pub slot_index : ℕ
  pub flags : ℕ
  pub last_access_ns : ℕ

pub record Stats : Type 0 where
  pub hits : ℕ
  pub misses : ℕ
  pub evictions : ℕ
  pub insertions : ℕ
  pub occupied : ℕ
  pub capacity : ℕ

pub record Index : Type 0 where
  pub entries : List Entry
  pub capacity : ℕ
  pub mask : ℕ
  pub occupied : ℕ
  pub arena : Arena
  pub stats : Stats

abbrev pub empty_slot : ℕ
empty_slot = 2 ^ 32 - 1

abbrev pub empty_entry : Entry
empty_entry = record {
  hash = replicate 32 0;
  slot_index = empty_slot;
  flags = 0;
  last_access_ns = 0;
}

abbrev pub is_empty : Entry → Bool
is_empty e = e.slot_index == empty_slot

-- `(double)occupied / capacity >= 0.85`. The capacity is a power of two, so the quotient is exact,
-- and the constant is the double 7656119366529843 / 2 ^ 53. For capacity 0 it is not a number.
unfoldable pub overfull : Index → Bool
overfull idx = ltb 0 idx.capacity && leb (7656119366529843 * idx.capacity) (idx.occupied * 2 ^ 53)

-- The first four bytes, lowest first.
unfoldable pub hash_to_bucket : List ℕ → ℕ → ℕ
hash_to_bucket h m =
    bit_and (get_or h 0 0 + get_or h 1 0 * 2 ^ 8 + get_or h 2 0 * 2 ^ 16 + get_or h 3 0 * 2 ^ 24) m

-- `memcmp(a, b, 32) == 0` on lists of equal length.
unfoldable pub hash_eq : List ℕ → List ℕ → Bool
hash_eq [] [] = true
hash_eq [] (y ∷ ys) = false
hash_eq (x ∷ xs) [] = false
hash_eq (x ∷ xs) (y ∷ ys) = (x == y) && hash_eq xs ys

-- `kllm_index_create`, for allocations that succeed.
unfoldable pub create : ℕ → Arena → Option Index
create capacity arena =
    if bit_and capacity (sub32 capacity 1) == 0
    then some (record {
      entries = replicate capacity empty_entry;
      capacity = capacity;
      mask = sub32 capacity 1;
      occupied = 0;
      arena = arena;
      stats = record {
        hits = 0;
        misses = 0;
        evictions = 0;
        insertions = 0;
        occupied = 0;
        capacity = capacity;
      };
    })
    else none

-- How a walk along the positions of a key ends.
pub data Probe : Type 0 where
  found : ℕ → Probe
  vacant : ℕ → Probe
  exhausted : Probe

-- `(bucket + i) & mask`.
abbrev pub position : ℕ → ℕ → ℕ → ℕ
position m bucket i = bit_and (add32 bucket i) m

-- The loop of a lookup and of an eviction, `n` rounds from `i`: an empty entry or the key ends it.
unfoldable pub probe : List Entry → ℕ → List ℕ → ℕ → ℕ → ℕ → Probe
probe entries m h bucket i zero = exhausted
probe entries m h bucket i (suc n) =
    let pos = position m bucket i in
    let rest = probe entries m h bucket (i + 1) n in
    if is_empty (get_or entries pos empty_entry)
    then vacant pos
    else if hash_eq (get_or entries pos empty_entry).hash h
    then found pos
    else rest

-- The loop of an insertion: the first empty entry, whatever keys stand before it.
unfoldable pub first_empty : List Entry → ℕ → ℕ → ℕ → ℕ → Option ℕ
first_empty entries m bucket i zero = none
first_empty entries m bucket i (suc n) =
    let pos = position m bucket i in
    let rest = first_empty entries m bucket (i + 1) n in
    if is_empty (get_or entries pos empty_entry) then some pos else rest

unfoldable pub lookup : Index → List ℕ → ℕ → Option ℕ × Index
unfolding probe hash_to_bucket
lookup idx h now =
    let missed : Option ℕ × Index =
      (none, record idx { stats = record idx.stats { misses = add64 idx.stats.misses 1 } }) in
    elim (probe idx.entries idx.mask h (hash_to_bucket h idx.mask) 0 idx.capacity) [
      | found pos ↦
          let e = get_or idx.entries pos empty_entry in
          (
            slot_ptr idx.arena e.slot_index,
            record idx {
              entries = set idx.entries pos (record e { last_access_ns = now });
              stats = record idx.stats { hits = add64 idx.stats.hits 1 };
            },
          )
      | vacant pos ↦ missed
      | exhausted ↦ missed
    ]

-- The loop of `find_lru_entry`, with the oldest time and the victim so far.
unfoldable pub lru_scan : List Entry → ℕ → ℕ → ℕ → ℕ
lru_scan [] i oldest victim = victim
lru_scan (e ∷ es) i oldest victim =
    let better = if is_empty e then false else ltb e.last_access_ns oldest in
    lru_scan es (i + 1) (if better then e.last_access_ns else oldest) (if better then i else victim)

unfoldable pub find_lru_entry : Index → ℕ
unfolding lru_scan
find_lru_entry idx = lru_scan idx.entries 0 (2 ^ 64 - 1) 0

-- The address that a slot's pointer is; NULL is 0.
abbrev pub address_of : Option ℕ → ℕ
address_of none = 0
address_of (some p) = p

-- The release of an entry: its block goes back to the arena.
unfoldable pub release : Index → ℕ → Index
release idx pos =
    let e = get_or idx.entries pos empty_entry in
    record idx {
      arena = free idx.arena (address_of (slot_ptr idx.arena e.slot_index));
      entries = set idx.entries pos (record e { slot_index = empty_slot });
      occupied = sub32 idx.occupied 1;
      stats = record idx.stats { evictions = add64 idx.stats.evictions 1 };
    }

unfoldable pub make_room : Index → Index
unfolding overfull release find_lru_entry
make_room idx = if overfull idx then release idx (find_lru_entry idx) else idx

-- The entry written by an insertion.
unfoldable pub stored : Index → ℕ → Arena → List ℕ → ℕ → ℕ → Index
stored idx pos arena h slot now = record idx {
  arena = arena;
  entries =
      set idx.entries pos (record { hash = h; slot_index = slot; flags = 0; last_access_ns = now });
  occupied = add32 idx.occupied 1;
  stats = record idx.stats { insertions = add64 idx.stats.insertions 1 };
}

-- `kllm_index_insert` behind the eviction.
unfoldable pub insert_block : Index → List ℕ → ℕ → Option ℕ × Index
unfolding first_empty hash_to_bucket stored
insert_block idx h now =
    let (block, arena') = alloc idx.arena in
    elim block [
      | none ↦ (none, record idx { arena = arena' })
      | some p ↦
          elim (first_empty idx.entries idx.mask (hash_to_bucket h idx.mask) 0 idx.capacity) [
            | some pos ↦ (some p, stored idx pos arena' h (slot_index arena' p) now)
            | none ↦ (none, record idx { arena = free arena' p })
          ]
    ]

unfoldable pub insert : Index → List ℕ → ℕ → Option ℕ × Index
unfolding make_room insert_block
insert idx h now = insert_block (make_room idx) h now

unfoldable pub evict : Index → List ℕ → Bool × Index
unfolding probe hash_to_bucket release
evict idx h = elim (probe idx.entries idx.mask h (hash_to_bucket h idx.mask) 0 idx.capacity) [
  | found pos ↦ (true, release idx pos)
  | vacant pos ↦ (false, idx)
  | exhausted ↦ (false, idx)
]

unfoldable pub get_stats : Index → Stats
get_stats idx = record idx.stats { occupied = idx.occupied }
