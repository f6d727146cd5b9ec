-- ===== src/Minheap/Extract.antt =====
-- zn_minheap_extract_min.
use znworkload.Prelude.{
  ℕ, suc, ◌+◌, ◌-◌, ◌≤◌, ◌<◌, ◌≡◌, ◌≢◌, refl, ◌∙◌, true, false, Option, some, none, arith, ◌==◌,
  if◌then◌else◌, dec_lt, ℕ_discrete, Option-cases, inl, inr,
}
use znworkload.Run.{ok, Returns, Returns-bind, ◌>>=◌}
use znworkload.Minheap.{Heap, parent, update, slot, set_slot, set_index, bubble_down, extract_min}
use znworkload.Minheap.Order.{WellFormed, Slot, IsHeap, key, holds, content, root_least}
use znworkload.Minheap.Up.{Restored}
use znworkload.Minheap.Down.{DownInv, bubble_down-Restored}
use znworkload.Minheap.Insert.{IsValid}

abbrev priority_in : Option (ℕ × ℕ) → ℕ
priority_in none = 0
priority_in (some (payload, priority)) = priority

-- Extracting removes one entry, and no entry of the heap has a smaller priority value.
pub record Extracted (h : Heap) (a : ℕ) (g : Heap) : Type 0 where
  pub valid : IsValid g
  pub shrunk : g.size + 1 ≡ h.size
  pub was_held : holds h a ≡ true
  pub held : (b : ℕ) → holds g b ≡ (if b == a then false else holds h b)
  pub all_kept : (b : ℕ) → content g b ≡ content h b
  pub least : (b : ℕ) → holds h b ≡ true → priority_in (content h a) ≤ priority_in (content h b)

abbrev pub ExtractedMin : Heap → Heap × Option ℕ → Type 0
ExtractedMin h (g, none) = (h.size ≡ 0) × (g ≡ h)
ExtractedMin h (g, some a) = Extracted h a g

module _ (h : Heap) (w : WellFormed h) (o : IsHeap h) (n : ℕ) (sized : h.size ≡ suc n) where
  abbrev root : Slot h 0
  root = w.slots 0 (omega arith)

  abbrev last : Slot h n
  last = w.slots n (omega arith)

  least : (b : ℕ) → holds h b ≡ true → priority_in (content h root.addr) ≤ priority_in (content h b)
  least b e = elim (Option-cases (h.entry b)) [
    | inl missing ↦ ground (arith, e, missing)
    | inr (x, there) ↦ ground (arith, e, there, root_least h x.index o, root)
  ]

  -- The heap that bubble_down starts from: the last pointer is in the root's slot.
  abbrev cut : Heap
  cut = record h {
    arr = update h.arr 0 (some last.addr);
    size = n;
    entry = update h.entry last.addr (some (record last.stored { index = 0 }));
  }

  module _ (more : 0 < n) where
    two_addrs : root.addr ≢ last.addr
    two_addrs = ground (arith, root, last)

    extract_min-cut : extract_min h ≡ (bubble_down cut 0 >>= λ g. ok (g, some root.addr))
    unfolding extract_min slot set_slot set_index
    extract_min-cut = ground (arith, root, last, w.room)

    key-cut : (c : ℕ) → c < n → key cut c ≡ (if c == 0 then key h n else key h c)
    key-cut c p = let s = w.slots c (omega arith) in ground (arith, s, last)

    cut-slots : (c : ℕ) → c < n → Slot cut c
    cut-slots c p =
        let s = w.slots c (omega arith) in
        record {
          addr = if c == 0 then last.addr else s.addr;
          stored = if c == 0 then record last.stored { index = 0 } else s.stored;
          points = ground (arith, s.points);
          there = ground (arith, s, last);
          knows = ground (arith, s.knows);
        }

    cut-DownInv : DownInv cut 0
    cut-DownInv = record {
      well = record {
        slots = cut-slots;
        room = omega (arith, w.room);
        small = omega (arith, w.small);
        pos = w.pos;
        fresh = λ a q. ground (arith, w.fresh a, last.there);
      };
      inside = more;
      edges = λ c p q m. ground (arith, key-cut c, key-cut (parent c), o c);
      bridged = λ c p q e r. omega arith;
    }

    holds-cut : (a : ℕ) → holds cut a ≡ (if a == root.addr then false else holds h a)
    holds-cut a = ground (arith, root, last, two_addrs)

    Restored-Extracted : (g : Heap) → Restored cut g → Extracted h root.addr g
    Restored-Extracted g (well, order, same) = record {
      valid = (well, order);
      shrunk = omega (arith, same.same_size);
      was_held = ground (arith, root);
      held = λ b. same.same_holds b ∙ holds-cut b;
      all_kept = λ b. ground (arith, same.same_content b, last.there);
      least = least;
    }

  extract_min-last : n ≡ 0 → extract_min h ≡ ok (record h { size = 0 }, some root.addr)
  unfolding extract_min slot
  extract_min-last e = ground (arith, root, w.room)

  emptied-Extracted : n ≡ 0 → Extracted h root.addr (record h { size = 0 })
  emptied-Extracted e = record {
    valid = (
      record {
        slots = λ i p. absurd (omega arith);
        room = omega arith;
        small = omega arith;
        pos = w.pos;
        fresh = w.fresh;
      },
      λ c p q. absurd (omega arith),
    );
    shrunk = omega arith;
    was_held = ground (arith, root);
    held = λ b. ground (arith, root);
    all_kept = λ b. refl;
    least = least;
  }

  extract_min-nonempty : Returns (ExtractedMin h) (extract_min h)
  extract_min-nonempty = elim (dec_lt 0 n) [
    | yes more ↦ rw (extract_min-cut more) (
        Returns-bind (Restored cut) (ExtractedMin h) _ (bubble_down cut 0)
          (bubble_down-Restored cut 0 (cut-DownInv more)) (Restored-Extracted more))
    | no none_left ↦ rw (extract_min-last (omega arith)) (emptied-Extracted (omega arith))
  ]

-- On a well-formed heap in order zn_minheap_extract_min returns. If the heap is empty it returns
-- NULL and leaves it; otherwise it returns an entry of the heap with the least priority value, the
-- heap is well-formed, in order and one smaller, it holds exactly the other entries, and no
-- entry's data or priority has changed.
pub extract_min-Extracted :
    (h : Heap) → WellFormed h → IsHeap h → Returns (ExtractedMin h) (extract_min h)
unfolding extract_min
extract_min-Extracted h w o = elim (ℕ_discrete h.size 0) [
  | yes e ↦ ground arith
  | no more ↦ extract_min-nonempty h w o (h.size - 1) (omega arith)
]
