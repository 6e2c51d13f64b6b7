-- ===== src/Tests/Tables.antt =====
-- An index of two entries over 64 free blocks, empty and with one key in it.
use xpu_kllm.Prelude.{
  ℕ, zero, suc, ◌^◌, ◌<◌, ◌≡◌, ◌↔◌, refl, arith, true, false, List, [], ◌∷◌, none, some, get_or,
  replicate,
}
use xpu_kllm.Arena.{alloc, slot_index, slot_ptr}
use xpu_kllm.Arena.Alloc.{is_free}
use xpu_kllm.Index.{
  Index, is_empty, empty_entry, found, overfull, create, probe, first_empty, hash_to_bucket,
  hash_eq, lookup, insert, insert_block, make_room, evict, stored,
}
use xpu_kllm.Index.Inv.{IsValid}
use xpu_kllm.Index.Insert.{walk}
use xpu_kllm.Index.Hits.{lookup-insert}
use xpu_kllm.Index.Kept.{lookup-insert_kept}
use xpu_kllm.Index.Again.{lookup-lookup}
use xpu_kllm.Index.Room.{insert-none}
use xpu_kllm.Index.Gaps.{home, lookup-evict}
use xpu_kllm.Index.Runs.{Reaches, create-Reaches-IsValid, insert-IsValid}
use xpu_kllm.Tests.Blocks.{all_free, all_free-IsValid}

abbrev pub key : ℕ → List ℕ
key b = b ∷ replicate 31 0

abbrev pub blank : Index
blank = record {
  entries = empty_entry ∷ empty_entry ∷ [];
  capacity = 2;
  mask = 1;
  occupied = 0;
  arena = all_free;
  stats = record {
    hits = 0;
    misses = 0;
    evictions = 0;
    insertions = 0;
    occupied = 0;
    capacity = 2;
  };
}

blank-IsValid : IsValid 1 blank
blank-IsValid = record {
  small = omega arith;
  power = refl;
  masked = refl;
  size = refl;
  counted = refl;
  arena = all_free-IsValid;
  slots = omega arith;
  sound = λ i u. absurd (ground (arith, all_blank i, u));
  apart = λ i j ne u w. absurd (ground (arith, all_blank i, u));
}
  where
    all_blank : (i : ℕ) → is_empty (get_or (empty_entry ∷ empty_entry ∷ []) i empty_entry) ≡ true
    all_blank zero = refl
    all_blank (suc zero) = refl
    all_blank (suc (suc i)) = refl

-- The index with key 5, which is not shown: its block is the first one.
abbrev pub filled : Index
filled = (insert blank (key 5) 10).1

filled-IsValid : IsValid 1 filled
filled-IsValid = insert-IsValid blank-IsValid (key 5) 10 (omega arith)

first_block : (insert blank (key 5) 10).0 ≡ some 4096
unfolding insert insert_block make_room overfull alloc first_empty hash_to_bucket stored
first_block = refl

pub blank_miss : (lookup blank (key 5) 1).0 ≡ none
unfolding lookup probe hash_to_bucket
blank_miss = refl

lookup-insert_example : (lookup (insert blank (key 5) 10).1 (key 5) 20).0 ≡ some 4096
lookup-insert_example =
    lookup-insert 1 blank (key 5) 1 10 20 4096 blank-IsValid (omega arith) blank_miss first_block

pub filled_hit : (lookup filled (key 5) 20).0 ≡ some 4096
filled_hit =
    lookup-insert 1 blank (key 5) 1 10 20 4096 blank-IsValid (omega arith) blank_miss first_block

half_full : overfull filled ≡ false
unfolding insert insert_block make_room overfull alloc first_empty hash_to_bucket stored
half_full = refl

lookup-insert_kept_example : (lookup (insert filled (key 7) 30).1 (key 5) 40).0 ≡ some 4096
lookup-insert_kept_example =
    lookup-insert_kept 1 filled (key 7) (key 5) 20 30 40 4096 filled-IsValid (omega arith) half_full
      filled_hit

-- Keys 5 and 7 share the home position 1, and 7 stands behind it.
abbrev crowded : Index
crowded = (insert filled (key 7) 30).1

crowded-IsValid : IsValid 1 crowded
crowded-IsValid = insert-IsValid filled-IsValid (key 7) 30 (omega arith)

seven_found : (lookup crowded (key 7) 40).0 ≡ some 8192
unfolding lookup probe insert insert_block make_room overfull alloc first_empty hash_to_bucket
    stored slot_ptr slot_index hash_eq
seven_found = refl

five_at_home : walk crowded (key 5) ≡ found (home crowded (key 5))
unfolding probe insert insert_block make_room overfull alloc first_empty hash_to_bucket stored
    slot_index hash_eq
five_at_home = refl

same_home : home crowded (key 7) ≡ home crowded (key 5)
unfolding insert insert_block make_room overfull alloc first_empty hash_to_bucket stored slot_index
same_home = refl

lookup-evict_example :
    ((evict crowded (key 5)).0 ≡ true) × ((lookup (evict crowded (key 5)).1 (key 7) 50).0 ≡ none)
lookup-evict_example =
    lookup-evict 1 crowded (key 5) (key 7) 50 crowded-IsValid five_at_home same_home

insert-none_example :
    ((insert blank (key 5) 10).0 ≡ none)
    ↔ ((overfull blank ≡ false) × ((slot : ℕ) → is_free blank.arena slot ≡ false))
insert-none_example = insert-none 1 blank (key 5) 10 blank-IsValid

some_occupied : 0 < crowded.occupied
unfolding insert insert_block make_room overfull alloc first_empty hash_to_bucket stored slot_index
some_occupied = omega arith

create-Reaches-IsValid_example :
    (start : Index) × (create (2 ^ 1) all_free ≡ some start)
    × ((idx : Index) → Reaches start idx → IsValid 1 idx)
create-Reaches-IsValid_example =
    create-Reaches-IsValid 1 all_free (omega arith) all_free-IsValid (omega arith)

lookup-lookup_example :
    (lookup (lookup crowded (key 5) 40).1 (key 7) 50).0 ≡ (lookup crowded (key 7) 50).0
lookup-lookup_example = lookup-lookup crowded (key 5) (key 7) 40 50
