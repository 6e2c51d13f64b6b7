-- ===== src/Ring/Spsc.antt =====
-- The two sides of the token ring at work at the same time: `kllm_ring_produce` in the kernel and
-- `kllm_ring_available` with `kllm_ring_consume` in the reactor, each cut at its accesses to shared
-- memory. The fences between the accesses make their order visible to the other side, so one step
-- after the other in any interleaving is what can happen.
pub mod Window
use xpu_kllm.Prelude.{
  ℕ, ◌+◌, ◌-◌, ◌%◌, ◌^◌, ◌≤◌, ◌<◌, bit_and, ◌≡◌, ◌≢◌, refl, sym, ap, ◌∙◌, subst, arith, List, [],
  ◌∷◌, ◌++◌, append_assoc, append-nil, length, get_or, set, get_or-set_self, get_or-set_ne, Rc, ok,
  fail, replicate,
}
use xpu_kllm.Prelude.Words.{add32}
use xpu_kllm.Ring.{Ring, mask, produce, consume, available}
use xpu_kllm.Ring.Inv.{IsValid, used, used-lt, available-used, consume-IsValid}
use xpu_kllm.Ring.Refine.{contents, length-contents}
use Window.{
  next_head, next_tail, store, publish, release, store-IsValid, publish-IsValid, contents-store,
  used-publish, contents-publish, used-release, contents-release, head-ne-tail, room_of_next,
  release-IsValid,
}

-- Where the producer stands: before its test, behind it, or with its slot written.
pub data Producer : Type 0 where
  idle : Producer
  checked : ℕ → Producer
  stored : ℕ → Producer

-- Where the consumer stands: before its test, behind it, or with its slot read.
pub data Consumer : Type 0 where
  idle : Consumer
  seen : Consumer
  loaded : ℕ → Consumer

-- The ring, both sides, and what each has finished so far.
pub record System : Type 0 where
  pub ring : Ring
  pub producer : Producer
  pub consumer : Consumer
  pub produced : List ℕ
  pub consumed : List ℕ

pub data Step : System → System → Type 0 where
  check :
      (s : System) (x : ℕ)
      → s.producer ≡ Producer.idle
      → next_head s.ring ≢ s.ring.tail
      → Step s (record s { producer = Producer.checked x })
  write :
      (s : System) (x : ℕ)
      → s.producer ≡ Producer.checked x
      → Step s (record s { ring = store x s.ring; producer = Producer.stored x })
  publishes :
      (s : System) (x : ℕ)
      → s.producer ≡ Producer.stored x
      → Step s (record s {
        ring = publish s.ring;
        producer = Producer.idle;
        produced = s.produced ++ (x ∷ []);
      })
  see :
      (s : System)
      → s.consumer ≡ Consumer.idle
      → available s.ring ≢ 0
      → Step s (record s { consumer = Consumer.seen })
  load :
      (s : System)
      → s.consumer ≡ Consumer.seen
      → Step s (record s { consumer = Consumer.loaded (get_or s.ring.slots s.ring.tail 0) })
  releases :
      (s : System) (x : ℕ)
      → s.consumer ≡ Consumer.loaded x
      → Step s (record s {
        ring = release s.ring;
        consumer = Consumer.idle;
        consumed = s.consumed ++ (x ∷ []);
      })

pub data Reach (s : System) : System → Type 0 where
  here : Reach s s
  next : {t u : System} → Reach s t → Step t u → Reach s u

-- What each side may rely on where it stands.
abbrev pub Room : Producer → Ring → Type 0
Room Producer.idle r = Unit {0}
Room (Producer.checked x) r = used r + 1 < r.slot_count
Room (Producer.stored x) r = (used r + 1 < r.slot_count) × (get_or r.slots r.head 0 ≡ x)

abbrev pub Ready : Consumer → Ring → Type 0
Ready Consumer.idle r = Unit {0}
Ready Consumer.seen r = 0 < used r
Ready (Consumer.loaded x) r = (0 < used r) × (get_or r.slots r.tail 0 ≡ x)

pub record Inv (bits : ℕ) (s : System) : Type 0 where
  pub valid : IsValid bits s.ring
  pub fifo : s.produced ≡ s.consumed ++ contents s.ring
  pub room : Room s.producer s.ring
  pub ready : Ready s.consumer s.ring

abbrev pub Fresh : System → Type 0
Fresh s =
    (s.producer ≡ Producer.idle)
    × (s.consumer ≡ Consumer.idle)
    × (s.produced ≡ [])
    × (s.consumed ≡ [])
    × (contents s.ring ≡ [])

module _ {bits : ℕ} {r : Ring} (v : IsValid bits r) where
  -- A store leaves the slot that the consumer reads, and keeps the counts.
  Ready-store : (k : Consumer) (x : ℕ) → Ready k r → Ready k (store x r)
  unfolding store
  Ready-store Consumer.idle x h = tt
  Ready-store Consumer.seen x h = h
  Ready-store (Consumer.loaded y) x (some_used, e) =
      (some_used, get_or-set_ne r.slots r.head r.tail x 0 (head-ne-tail v some_used) ∙ e)

  -- More tokens do not hurt the consumer.
  Ready-publish : (k : Consumer) → used r + 1 < r.slot_count → Ready k r → Ready k (publish r)
  unfolding publish
  Ready-publish Consumer.idle room h = tt
  Ready-publish Consumer.seen room h = omega (arith, used-publish v room)
  Ready-publish (Consumer.loaded y) room (h, e) = (omega (arith, used-publish v room), e)

  -- Fewer tokens do not hurt the producer.
  Room-release : (p : Producer) → 0 < used r → Room p r → Room p (release r)
  unfolding release
  Room-release Producer.idle some_used h = tt
  Room-release (Producer.checked y) some_used h = omega (arith, used-release v some_used)
  Room-release (Producer.stored y) some_used (h, e) = (omega (arith, used-release v some_used), e)

write-Inv :
    {bits : ℕ} (s : System) (x : ℕ)
    → s.producer ≡ Producer.checked x
    → Inv bits s
    → Inv bits (record s { ring = store x s.ring; producer = Producer.stored x })
unfolding store
write-Inv s x e i =
    let room : used s.ring + 1 < s.ring.slot_count = subst (λ p. Room p s.ring) e i.room in
    record {
      valid = store-IsValid i.valid x;
      fifo = i.fifo ∙ ap (◌++◌ s.consumed) (sym (contents-store i.valid x room));
      room = (room, get_or-set_self s.ring.slots s.ring.head x 0 (omega (arith, i.valid.storage)));
      ready = Ready-store i.valid s.consumer x i.ready;
    }

publishes-Inv :
    {bits : ℕ} (s : System) (x : ℕ)
    → s.producer ≡ Producer.stored x
    → Inv bits s
    → Inv bits (record s {
      ring = publish s.ring;
      producer = Producer.idle;
      produced = s.produced ++ (x ∷ []);
    })
publishes-Inv s x e i =
    let room : Room (Producer.stored x) s.ring = subst (λ p. Room p s.ring) e i.room in
    record {
      valid = publish-IsValid i.valid;
      fifo =
          ap (λ (l : List ℕ). l ++ (x ∷ [])) i.fifo
          ∙ append_assoc s.consumed (contents s.ring) (x ∷ [])
          ∙ ap (◌++◌ s.consumed) (
              ap (λ (y : ℕ). contents s.ring ++ (y ∷ [])) (sym room.1)
              ∙ sym (contents-publish i.valid room.0));
      room = tt;
      ready = Ready-publish i.valid s.consumer room.0 i.ready;
    }

releases-Inv :
    {bits : ℕ} (s : System) (x : ℕ)
    → s.consumer ≡ Consumer.loaded x
    → Inv bits s
    → Inv bits (record s {
      ring = release s.ring;
      consumer = Consumer.idle;
      consumed = s.consumed ++ (x ∷ []);
    })
releases-Inv s x e i =
    let ready : Ready (Consumer.loaded x) s.ring = subst (λ k. Ready k s.ring) e i.ready in
    record {
      valid = release-IsValid i.valid;
      fifo =
          i.fifo
          ∙ ap (◌++◌ s.consumed) (
              contents-release i.valid ready.0
              ∙ ap (λ (y : ℕ). y ∷ contents (release s.ring)) ready.1)
          ∙ sym (append_assoc s.consumed (x ∷ []) (contents (release s.ring)));
      room = Room-release i.valid s.producer ready.0 i.room;
      ready = tt;
    }

Step-Inv : {bits : ℕ} {s t : System} → Step s t → Inv bits s → Inv bits t
Step-Inv (check s x e h) i = record {
  valid = i.valid;
  fifo = i.fifo;
  room = room_of_next i.valid h;
  ready = i.ready;
}
Step-Inv (write s x e) i = write-Inv s x e i
Step-Inv (publishes s x e) i = publishes-Inv s x e i
Step-Inv (see s e h) i = record {
  valid = i.valid;
  fifo = i.fifo;
  room = i.room;
  ready = omega (arith, available-used i.valid);
}
Step-Inv (load s e) i = record {
  valid = i.valid;
  fifo = i.fifo;
  room = i.room;
  ready = (subst (λ k. Ready k s.ring) e i.ready, refl);
}
Step-Inv (releases s x e) i = releases-Inv s x e i

Reach-Inv : {bits : ℕ} {s t : System} → Inv bits s → Reach s t → Inv bits t
Reach-Inv i here = i
Reach-Inv i (next r st) = Step-Inv st (Reach-Inv i r)

Fresh-Inv : {bits : ℕ} (s : System) → IsValid bits s.ring → Fresh s → Inv bits s
Fresh-Inv s v (p, k, made, taken, empty) = record {
  valid = v;
  fifo = rw (made, taken, empty);
  room = rw p tt;
  ready = rw k tt;
}

-- However the steps of the two sides interleave from a well-formed empty ring, no token is lost,
-- repeated or put out of order: what was produced is what was consumed followed by what the ring
-- holds. The ring stays well formed, and never holds more than one token less than its slots.
pub Reach_fifo :
    {bits : ℕ} {s t : System}
    → IsValid bits s.ring
    → Fresh s
    → Reach s t
    → (t.produced ≡ t.consumed ++ contents t.ring)
      × IsValid bits t.ring
      × (length (contents t.ring) < t.ring.slot_count)
Reach_fifo {bits} {s} {t} v f r =
    let i : Inv bits t = Reach-Inv (Fresh-Inv s v f) r in
    (i.fifo, i.valid, omega (arith, length-contents t.ring, used-lt i.valid))
