-- ===== src/Minheap/Insert.antt =====
-- zn_minheap_insert and zn_minheap_update_by_entry.
use znworkload.Prelude.{
  ℕ, ◌+◌, ◌*◌, ◌≤◌, ◌<◌, ◌≡◌, ◌^◌, true, false, Option, some, none, arith, ◌==◌, if◌then◌else◌,
  dec_lt, u32,
}
use znworkload.Run.{ok, Returns, Returns-bind, ◌>>=◌}
use znworkload.Minheap.{
  Heap, Entry, parent, insert, init, update, bubble_up, set_slot, minheap_realloc,
}
use znworkload.Minheap.Order.{WellFormed, Slot, IsHeap, key, holds, content}
use znworkload.Minheap.Up.{Restored, UpInv, bubble_up-Restored}

-- A heap in order.
abbrev pub IsValid : Heap → Type 0
IsValid h = WellFormed h × IsHeap h

-- Inserting adds exactly the new entry.
pub record Inserted (h : Heap) (payload priority : ℕ) (r : Heap × ℕ) : Type 0 where
  pub valid : IsValid r.0
  pub grown : r.0.size ≡ h.size + 1
  pub is_new : holds h r.1 ≡ false
  pub held : (a : ℕ) → holds r.0 a ≡ (if a == r.1 then true else holds h a)
  pub kept : (a : ℕ) → content r.0 a ≡ (if a == r.1 then some (payload, priority) else content h a)

module _ (h : Heap) (payload priority : ℕ) (w : WellFormed h) (o : IsHeap h)
    (few : h.size + 1 < 2 ^ 31) where
  abbrev new_entry : Entry
  new_entry = record { payload = payload; priority = priority; index = h.size }

  -- The heap with the new entry in its last slot.
  abbrev appended : Heap
  appended = record {
    arr = update h.arr h.size (some h.next);
    size = h.size + 1;
    capacity = if h.size == h.capacity then u32 (h.capacity * 2) else h.capacity;
    entry = update h.entry h.next (some new_entry);
    next = h.next + 1;
  }

  appended-slots : (i : ℕ) → i < h.size + 1 → Slot appended i
  appended-slots i p = elim (dec_lt i h.size) [
    | yes q ↦
        let s = w.slots i q in
        record {
          addr = s.addr;
          stored = s.stored;
          points = ground (arith, s.points);
          there = ground (arith, s.there, w.fresh h.next);
          knows = s.knows;
        }
    | no n ↦ record {
      addr = h.next;
      stored = new_entry;
      points = ground arith;
      there = ground arith;
      knows = omega arith;
    }
  ]

  key-appended : (i : ℕ) → i < h.size → key appended i ≡ key h i
  key-appended i p = let s = w.slots i p in ground (arith, s, w.fresh h.next)

  appended-UpInv : UpInv appended h.size
  appended-UpInv = record {
    well = record {
      slots = appended-slots;
      room = ground (arith, w.room, w.pos, few);
      small = few;
      pos = ground (arith, w.pos, w.room, w.small);
      fresh = λ a q. ground (arith, w.fresh a);
    };
    inside = omega arith;
    edges = λ c p q n. ground (arith, key-appended c, key-appended (parent c), o c);
    bridged = λ c p q e r. omega arith;
  }

  insert-bubble_up : insert h payload priority ≡ (bubble_up appended h.size >>= λ g. ok (g, h.next))
  unfolding insert set_slot minheap_realloc
  insert-bubble_up = ground (arith, w.room, w.pos, few)

  Restored-Inserted : (g : Heap) → Restored appended g → Inserted h payload priority (g, h.next)
  Restored-Inserted g (well, order, same) = record {
    valid = (well, order);
    grown = same.same_size;
    is_new = ground (arith, w.fresh h.next);
    held = λ a. ground (arith, same.same_holds a);
    kept = λ a. ground (arith, same.same_content a);
  }

  -- On a well-formed heap in order with fewer than 2^31 - 1 entries, zn_minheap_insert returns,
  -- also when the array has to grow. The new entry was not in the heap; the heap is well-formed,
  -- in order and one larger, holds exactly the old entries and the new one, and only the new
  -- entry's data and priority have changed.
  pub insert-Inserted : Returns (Inserted h payload priority) (insert h payload priority)
  insert-Inserted = rw insert-bubble_up (
      Returns-bind (Restored appended) (Inserted h payload priority) _ (bubble_up appended h.size)
        (bubble_up-Restored appended h.size appended-UpInv) Restored-Inserted)

-- A new heap with a capacity is in order, and holds no entry.
pub init-IsValid :
    (entry : ℕ → Option Entry) (next capacity : ℕ)
    → 0 < capacity
    → ((a : ℕ) → next ≤ a → entry a ≡ none)
    → IsValid (init entry next capacity) × ((a : ℕ) → holds (init entry next capacity) a ≡ false)
unfolding init
init-IsValid entry next capacity pos fresh = (
  (
    record {
      slots = λ i p. absurd (omega arith);
      room = omega arith;
      small = omega arith;
      pos = pos;
      fresh = fresh;
    },
    λ c p q. absurd (omega arith),
  ),
  λ a. ground arith,
)
