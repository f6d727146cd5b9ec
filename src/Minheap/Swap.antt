-- ===== src/Minheap/Swap.antt =====
-- The exchange of two slots.
use znworkload.Prelude.{ℕ, ◌<◌, ◌≡◌, ◌≢◌, refl, some, arith, ◌==◌, if◌then◌else◌}
use znworkload.Run.{ok}
use znworkload.Minheap.{Heap, update, swap, slot, set_slot, set_index, priority_at}
use znworkload.Minheap.Order.{WellFormed, Slot, Rearranged, key}

pub priority_at-key :
    (h : Heap) (i : ℕ) → WellFormed h → i < h.size → priority_at h i ≡ ok (key h i)
unfolding priority_at slot
priority_at-key h i w p = let s = w.slots i p in ground (arith, s, w.room)

module _ (h : Heap) (w : WellFormed h) (i j : ℕ) (hi : i < h.size) (hj : j < h.size)
    (apart : i ≢ j) where
  abbrev pub s : Slot h i
  s = w.slots i hi

  abbrev pub t : Slot h j
  t = w.slots j hj

  other_addr : s.addr ≢ t.addr
  other_addr = ground (arith, s, t)

  abbrev pub swapped : Heap
  swapped = record h {
    arr = update (update h.arr i (some t.addr)) j (some s.addr);
    entry =
        update (update h.entry t.addr (some (record t.stored { index = i }))) s.addr
          (some (record s.stored { index = j }));
  }

  pub swap-ok : swap h i j ≡ ok swapped
  unfolding swap slot set_slot set_index
  swap-ok = ground (arith, s.points, s.there, t.points, t.there, other_addr, w.room)

  pub key-swapped :
      (c : ℕ)
      → c < h.size
      → key swapped c ≡ (if c == i then key h j else if c == j then key h i else key h c)
  key-swapped c p = let r = w.slots c p in ground (arith, r, s, t, other_addr)

  pub swapped-WellFormed : WellFormed swapped
  swapped-WellFormed = record {
    slots = λ c p.
        let r = w.slots c p in
        record {
          addr = if c == i then t.addr else if c == j then s.addr else r.addr;
          stored =
              if c == i
              then record t.stored { index = i }
              else if c == j
              then record s.stored { index = j }
              else r.stored;
          points = ground (arith, r.points);
          there = ground (arith, r, s, t, other_addr);
          knows = ground (arith, r.knows);
        };
    room = w.room;
    small = w.small;
    pos = w.pos;
    fresh = λ a q. ground (arith, w.fresh a, s.there, t.there);
  }

  pub swapped-Rearranged : Rearranged h swapped
  swapped-Rearranged = record {
    same_holds = λ a. ground (arith, s, t, other_addr);
    same_content = λ a. ground (arith, s.there, t.there);
    same_size = refl;
    same_capacity = refl;
    same_next = refl;
  }
