-- ===== src/Minheap/Up.antt =====
-- bubble_up.
use znworkload.Prelude.{ℕ, zero, suc, ◌+◌, ◌≤◌, ◌<◌, ◌≡◌, ◌≢◌, arith, ◌==◌, if◌then◌else◌, dec_lt}
use znworkload.Run.{Returns, Returns-map}
use znworkload.Minheap.{Heap, parent, bubble_up_loop, bubble_up}
use znworkload.Minheap.Order.{
  WellFormed, Rearranged, Rearranged-refl, Rearranged-trans, IsHeap, key,
}
use znworkload.Minheap.Swap.{
  swapped, swap-ok, key-swapped, swapped-WellFormed, swapped-Rearranged, priority_at-key,
}

-- A heap of the same entries, in order.
abbrev pub Restored : Heap → Heap → Type 0
Restored g h = WellFormed h × IsHeap h × Rearranged g h

-- Only the entry in slot `i` may have a smaller priority value than its parent.
pub record UpInv (h : Heap) (i : ℕ) : Type 0 where
  pub well : WellFormed h
  pub inside : i < h.size
  pub edges : (c : ℕ) → 0 < c → c < h.size → c ≢ i → key h (parent c) ≤ key h c
  pub bridged : (c : ℕ) → 0 < c → c < h.size → parent c ≡ i → 0 < i → key h (parent i) ≤ key h c

module _ (h : Heap) (i : ℕ) (v : UpInv h i) (pos : 0 < i) (below : key h i < key h (parent i)) where
  above : parent i < h.size
  above = omega (arith, v.inside)

  abbrev risen : Heap
  risen = swapped h v.well i (parent i) v.inside above (omega arith)

  key-risen :
      (c : ℕ)
      → c < h.size
      → key risen c
        ≡ (if c == i then key h (parent i) else if c == parent i then key h i else key h c)
  key-risen = key-swapped h v.well i (parent i) v.inside above (omega arith)

  risen-UpInv : UpInv risen (parent i)
  risen-UpInv = record {
    well = swapped-WellFormed h v.well i (parent i) v.inside above (omega arith);
    inside = above;
    edges =
        λ c p q n. ground (arith, key-risen c, key-risen (parent c), v.edges c, v.bridged c, above);
    bridged = λ c p q e r.
        ground
          (arith, key-risen c, key-risen (parent (parent i)), v.edges c, v.edges (parent i), above);
  }

  bubble_up_loop-rise : (k : ℕ) → bubble_up_loop (suc k) h i ≡ bubble_up_loop k risen (parent i)
  unfolding bubble_up_loop
  bubble_up_loop-rise k = ground (
    arith,
    priority_at-key h i v.well v.inside,
    priority_at-key h (parent i) v.well above,
    swap-ok h v.well i (parent i) v.inside above (omega arith),
  )

  risen-Rearranged : Rearranged h risen
  risen-Rearranged = swapped-Rearranged h v.well i (parent i) v.inside above (omega arith)

bubble_up_loop-Restored :
    (k : ℕ) (h : Heap) (i : ℕ) → i < k → UpInv h i → Returns (Restored h) (bubble_up_loop k h i)
unfolding bubble_up_loop
bubble_up_loop-Restored zero h i f v = absurd (omega arith)
bubble_up_loop-Restored (suc k) h i f v = elim (dec_lt 0 i) [
  | no root ↦
      let o : IsHeap h = λ c p q. v.edges c p q (omega arith) in
      ground (arith, v.well, o, Rearranged-refl h)
  | yes pos ↦
      let here = priority_at-key h i v.well v.inside in
      let above' = priority_at-key h (parent i) v.well (omega (arith, v.inside)) in
      elim (dec_lt (key h i) (key h (parent i))) [
        | no settled ↦
            let o : IsHeap h = λ c p q. ground (arith, v.edges c) in
            ground (arith, here, above', v.well, o, Rearranged-refl h)
        | yes below ↦
            let g = risen h i v pos below in
            let ih =
              bubble_up_loop-Restored k g (parent i) (omega arith) (risen-UpInv h i v pos below) in
            rw (bubble_up_loop-rise h i v pos below k) (
              Returns-map (Restored g) (Restored h) (bubble_up_loop k g (parent i)) ih
                λ h' r. (r.0, r.1, Rearranged-trans h g h' (risen-Rearranged h i v pos below) r.2))
      ]
]

-- An entry that is too low in the tree rises to its place; the other entries stay in order.
pub bubble_up-Restored : (h : Heap) (i : ℕ) → UpInv h i → Returns (Restored h) (bubble_up h i)
unfolding bubble_up
bubble_up-Restored h i v = bubble_up_loop-Restored (i + 1) h i (omega arith) v
