-- ===== src/Minheap/Destroy.antt =====
-- zn_minheap_destroy.
use znworkload.Prelude.{
  ℕ, zero, suc, ◌+◌, ◌<◌, ◌≡◌, refl, ap, some, none, arith, if◌then◌else◌, ◌==◌, Bool, ◌||◌,
  Option-cases, inl, inr,
}
use znworkload.Run.{Returns, Returns-bind, ok}
use znworkload.Minheap.{Heap, slot, free_entries, destroy, update}
use znworkload.Minheap.Order.{WellFormed, Slot, holds}

module _ (h : Heap) (v : WellFormed h) where
  -- Whether the entry at an address is in the first `i` slots.
  abbrev within : ℕ → ℕ → Bool
  within i a = holds (record h { size = i }) a

  -- The entries of the first `i` slots are freed.
  abbrev After : ℕ → Heap → Type 0
  After i g =
      (g.arr ≡ h.arr)
      × (g.capacity ≡ h.capacity)
      × ((a : ℕ) → g.entry a ≡ (if within i a then none else h.entry a))

  within-next : (i : ℕ) (s : Slot h i) (a : ℕ) → within (i + 1) a ≡ (within i a || s.addr == a)
  within-next i s a = elim (Option-cases (h.entry a)) [
    | inl none_there ↦ ground (arith, none_there, s)
    | inr (e, there) ↦ ground (arith, there, s)
  ]

  within-none : (a : ℕ) → h.entry a ≡ (if within 0 a then none else h.entry a)
  within-none a = elim (Option-cases (h.entry a)) [
    | inl none_there ↦ ground (arith, none_there)
    | inr (e, there) ↦ ground (arith, there)
  ]

  found : (i : ℕ) (g : Heap) (s : Slot h i) → After i g → g.entry s.addr ≡ some s.stored
  found i g s f = ground (arith, f.2 s.addr, s.there, s.knows)

  pointed : (i : ℕ) (g : Heap) (s : Slot h i) → i < h.size → After i g → slot g i ≡ ok s.addr
  unfolding slot
  pointed i g s l f =
      let a : g.arr i ≡ h.arr i = ap (λ x. x i) f.0 in ground (arith, a, s.points, f.1, v.room, l)

  After-next :
      (i : ℕ) (g : Heap) (s : Slot h i)
      → After i g
      → After (i + 1) (record g { entry = update g.entry s.addr none })
  After-next i g s f = (f.0, f.1, λ a. ground (arith, f.2 a, within-next i s a))

  free_entries-After :
      (k i : ℕ) (g : Heap)
      → i + k ≡ h.size
      → After i g
      → Returns (After h.size) (free_entries k i g)
  unfolding free_entries slot
  free_entries-After zero i g n f = let e : i ≡ h.size = omega arith in rw e at f
  free_entries-After (suc k) i g n f =
      let s = v.slots i (omega arith) in
      let p = pointed i g s (omega arith) f in
      let e = found i g s f in
      rw (p, e)
        (free_entries-After k (i + 1) (record g { entry = update g.entry s.addr none })
          (omega arith) (After-next i g s f))

  -- On a well-formed heap zn_minheap_destroy returns, without a second free of an entry; the
  -- entries that the heap holds are freed, and all others stay.
  pub destroy-Destroyed :
      Returns (λ entry. (a : ℕ) → entry a ≡ (if holds h a then none else h.entry a)) (destroy h)
  unfolding destroy
  destroy-Destroyed =
      Returns-bind (After h.size)
        (λ entry. (a : ℕ) → entry a ≡ (if holds h a then none else h.entry a)) _
        (free_entries h.size 0 h)
        (free_entries-After h.size 0 h (omega arith) (refl, refl, λ a. within-none a)) λ g f. f.2
