-- ===== src/Minheap/Change.antt =====
-- zn_minheap_update_by_entry.
use znworkload.Prelude.{
  ℕ, ◌≤◌, ◌<◌, ◌≡◌, ◌⊎◌, refl, ◌∙◌, true, false, some, arith, ltb, ◌==◌, if◌then◌else◌, dec_lt,
  Bool-cases, inl, inr, minus_one,
}
use znworkload.Run.{ok, Returns, Returns-bind, Returns-map, ◌>>=◌}
use znworkload.Minheap.{
  Heap, Entry, parent, store, bubble_down, bubble_up, update_entry, update_by_entry,
}
use znworkload.Minheap.Order.{WellFormed, Rearranged-refl, IsHeap, key, holds, content}
use znworkload.Minheap.Up.{Restored, UpInv, bubble_up-Restored}
use znworkload.Minheap.Down.{DownInv, bubble_down-Restored}
use znworkload.Minheap.Insert.{IsValid}

-- The heap is in order with the same entries, of which only `a` has the new priority.
pub record Changed (h : Heap) (a : ℕ) (e : Entry) (p : ℕ) (g : Heap) : Type 0 where
  pub valid : IsValid g
  pub same_held : (b : ℕ) → holds g b ≡ holds h b
  pub kept : (b : ℕ) → content g b ≡ (if b == a then some (e.payload, p) else content h b)

module _ (h : Heap) (w : WellFormed h) (o : IsHeap h) (a : ℕ) (e : Entry)
    (there : h.entry a ≡ some e) (p : ℕ) (inside : e.index < h.size) where
  abbrev changed : Heap
  changed = store h a (record e { priority = p })

  changed-WellFormed : WellFormed changed
  changed-WellFormed = record {
    slots = λ c q.
        let s = w.slots c q in
        record {
          addr = s.addr;
          stored = if a == s.addr then record e { priority = p } else s.stored;
          points = s.points;
          there = ground (arith, s.there);
          knows = ground (arith, s, there);
        };
    room = w.room;
    small = w.small;
    pos = w.pos;
    fresh = λ b q. ground (arith, w.fresh b, there);
  }

  holds-changed : (b : ℕ) → holds changed b ≡ holds h b
  holds-changed b = ground (arith, there)

  -- The call on an entry whose index passes the test.
  update_entry-branches : update_by_entry h (some a) p ≡ (
      (if ltb p e.priority
        then bubble_up changed e.index
        else if ltb e.priority p
        then bubble_down changed e.index
        else ok changed)
      >>= λ g. ok (g, 0))
  unfolding update_by_entry update_entry
  update_entry-branches = ground (arith, there)

  Restored-Changed : (g : Heap) → Restored changed g → Changed h a e p g
  Restored-Changed g (well, order, same) = record {
    valid = (well, order);
    same_held = λ b. same.same_holds b ∙ holds-changed b;
    kept = λ b. ground (arith, same.same_content b);
  }

  -- The call returns 0 and re-establishes the order, if it may assume the order but for the entry.
  finish :
      (p < e.priority → UpInv changed e.index)
      → (e.priority < p → DownInv changed e.index)
      → (p ≡ e.priority → IsHeap changed)
      → Returns (λ (g, ret). Changed h a e p g × (ret ≡ 0)) (update_by_entry h (some a) p)
  finish up down same = rw update_entry-branches (
      Returns-bind (Restored changed) (λ (g, ret). Changed h a e p g × (ret ≡ 0)) _ _ restored
        λ g r. (Restored-Changed g r, refl))
    where
      restored : Returns (Restored changed) (
          if ltb p e.priority
          then bubble_up changed e.index
          else if ltb e.priority p
          then bubble_down changed e.index
          else ok changed)
      restored = elim (dec_lt p e.priority) [
        | yes lower ↦ ground (arith, bubble_up-Restored changed e.index (up lower))
        | no n ↦ elim (dec_lt e.priority p) [
          | yes higher ↦ ground (arith, bubble_down-Restored changed e.index (down higher))
          | no m ↦ ground (arith, changed-WellFormed, same (omega arith), Rearranged-refl changed)
        ]
      ]

  module _ (held : holds h a ≡ true) where
    key-changed : (c : ℕ) → c < h.size → key changed c ≡ (if c == e.index then p else key h c)
    key-changed c q = let s = w.slots c q in ground (arith, s, there, held)

    key-there : key h e.index ≡ e.priority
    key-there = ground (arith, there, held)

    update_held : Returns (λ (g, ret). Changed h a e p g × (ret ≡ 0)) (update_by_entry h (some a) p)
    update_held =
        finish
          (λ lower. record {
            well = changed-WellFormed;
            inside = inside;
            edges =
                λ c q r n. ground (arith, key-changed c, key-changed (parent c), o c, key-there);
            bridged = λ c q r n m.
                ground
                  (arith, key-changed c, key-changed (parent e.index), o c, o e.index, key-there);
          })
          (λ higher. record {
            well = changed-WellFormed;
            inside = inside;
            edges =
                λ c q r n. ground (arith, key-changed c, key-changed (parent c), o c, key-there);
            bridged = λ c q r n m.
                ground
                  (arith, key-changed c, key-changed (parent e.index), o c, o e.index, key-there);
          })
          (λ same c q r. ground (arith, key-changed c, key-changed (parent c), o c, key-there))

  module _ (stale : holds h a ≡ false) where
    key-stale : (c : ℕ) → c < h.size → key changed c ≡ key h c
    key-stale c q = let s = w.slots c q in ground (arith, s, there, stale)

    order-stale : IsHeap changed
    order-stale c q r = ground (arith, key-stale c, key-stale (parent c), o c)

    update_stale :
        Returns (λ (g, ret). Changed h a e p g × (ret ≡ 0)) (update_by_entry h (some a) p)
    update_stale =
        finish
          (λ lower. record {
            well = changed-WellFormed;
            inside = inside;
            edges = λ c q r n. order-stale c q r;
            bridged = λ c q r n m. ground (arith, order-stale c, order-stale e.index);
          })
          (λ higher. record {
            well = changed-WellFormed;
            inside = inside;
            edges = λ c q r n. order-stale c q r;
            bridged = λ c q r n m. ground (arith, order-stale c, order-stale e.index);
          })
          (λ same. order-stale)

-- What the call on an allocated entry does: an index past the end is refused with -1, and any other
-- is taken for the entry's slot, also where the heap does not hold the entry.
abbrev pub Updated : Heap → ℕ → Entry → ℕ → Heap × ℕ → Type 0
Updated h a e p (g, ret) =
    ((h.size ≤ e.index) × (ret ≡ minus_one) × (g ≡ h))
    ⊎ ((e.index < h.size) × Changed h a e p g × (ret ≡ 0))

-- On a well-formed heap in order, zn_minheap_update_by_entry of an allocated entry returns. If the
-- entry's index is not below the heap's size it returns -1 and changes nothing; otherwise, also
-- when the heap does not hold the entry, it returns 0, the entry has the new priority, the heap is
-- well-formed, in order and holds the same entries, and no other entry's data or priority has
-- changed.
pub update_by_entry-Updated :
    (h : Heap) (a : ℕ) (e : Entry) (p : ℕ)
    → WellFormed h
    → IsHeap h
    → h.entry a ≡ some e
    → Returns (Updated h a e p) (update_by_entry h (some a) p)
unfolding update_by_entry update_entry
update_by_entry-Updated h a e p w o there = elim (dec_lt e.index h.size) [
  | no outside ↦ ground (arith, there)
  | yes inside ↦
      Returns-map (λ (g, ret). Changed h a e p g × (ret ≡ 0)) (Updated h a e p) _
        (elim (Bool-cases (holds h a)) [
          | inl held ↦ update_held h w o a e there p inside held
          | inr stale ↦ update_stale h w o a e there p inside stale
        ])
        λ (g, ret) r. inr (inside, r.0, r.1)
]
