-- ===== src/Minheap/Down.antt =====
-- bubble_down.
use znworkload.Prelude.{
  ℕ, zero, suc, ◌+◌, ◌-◌, ◌*◌, ◌≤◌, ◌<◌, ◌≡◌, ◌≢◌, ◌⊎◌, ◌&&◌, arith, ltb, ◌==◌, if◌then◌else◌,
  dec_lt, ℕ_discrete, inl, inr, u32,
}
use znworkload.Run.{ok, Returns, Returns-map, ◌>>=◌}
use znworkload.Minheap.{Heap, parent, bubble_down_loop, bubble_down, swap, smaller}
use znworkload.Minheap.Order.{
  WellFormed, Rearranged, Rearranged-refl, Rearranged-trans, IsHeap, key,
}
use znworkload.Minheap.Swap.{
  swapped, swap-ok, key-swapped, swapped-WellFormed, swapped-Rearranged, priority_at-key,
}
use znworkload.Minheap.Up.{Restored}

-- Only the entry in slot `i` may have a greater priority value than its children.
pub record DownInv (h : Heap) (i : ℕ) : Type 0 where
  pub well : WellFormed h
  pub inside : i < h.size
  pub edges : (c : ℕ) → 0 < c → c < h.size → parent c ≢ i → key h (parent c) ≤ key h c
  pub bridged : (c : ℕ) → 0 < c → c < h.size → parent c ≡ i → 0 < i → key h (parent i) ≤ key h c

-- The smaller of two slots, if the first exists.
abbrev least : Heap → ℕ → ℕ → ℕ
least h c m = if ltb c h.size && ltb (key h c) (key h m) then c else m

smaller-least : (h : Heap) (c m : ℕ) → WellFormed h → m < h.size → smaller h c m ≡ ok (least h c m)
unfolding smaller
smaller-least h c m w p = elim (dec_lt c h.size) [
  | yes inside ↦ ground (arith, priority_at-key h c w inside, priority_at-key h m w p)
  | no outside ↦ ground arith
]

-- The slot that bubble_down compares slot `i` with.
abbrev smallest : Heap → ℕ → ℕ
smallest h i = least h (2 * i + 2) (least h (2 * i + 1) i)

module _ (h : Heap) (i : ℕ) (v : DownInv h i) where
  smallest_inside : smallest h i < h.size
  smallest_inside = ground (arith, v.inside)

  bubble_down_loop-branches :
      (k : ℕ)
      → bubble_down_loop (suc k) h i ≡ (
          if smallest h i == i
          then ok h
          else (swap h i (smallest h i) >>= λ h'. bubble_down_loop k h' (smallest h i)))
  unfolding bubble_down_loop
  bubble_down_loop-branches k =
      let left : u32 (2 * i + 1) ≡ 2 * i + 1 = omega (arith, v.inside, v.well.small) in
      let right : u32 (2 * i + 2) ≡ 2 * i + 2 = omega (arith, v.inside, v.well.small) in
      rw (
        left,
        right,
        smaller-least h (2 * i + 1) i v.well v.inside,
        smaller-least h (2 * i + 2) (least h (2 * i + 1) i) v.well (ground (arith, v.inside)),
      )

  children : (c : ℕ) → 0 < c → parent c ≡ i → (c ≡ 2 * i + 1) ⊎ (c ≡ 2 * i + 2)
  children c p e = elim (ℕ_discrete c (2 * i + 1)) [ yes l ↦ inl l | no n ↦ inr (omega arith) ]

  settled-child :
      smallest h i ≡ i
      → (c : ℕ) → c < h.size
      → (c ≡ 2 * i + 1) ⊎ (c ≡ 2 * i + 2)
      → key h i ≤ key h c
  settled-child e c q (inl l) = rw l (ground arith)
  settled-child e c q (inr l) = rw l (ground arith)

  settled-IsHeap : smallest h i ≡ i → IsHeap h
  settled-IsHeap e c p q = elim (ℕ_discrete (parent c) i) [
    | yes here ↦ rw here (settled-child e c q (children c p here))
    | no other ↦ v.edges c p q other
  ]

  -- The slot is a child whose priority value is less, and no more than its sibling's.
  record IsLeastChild (m : ℕ) : Type 0 where
    exists : m < h.size
    child : (m ≡ 2 * i + 1) ⊎ (m ≡ 2 * i + 2)
    lower : key h m < key h i
    least_child : (c : ℕ) → 0 < c → c < h.size → parent c ≡ i → key h m ≤ key h c

  smallest-IsLeastChild : smallest h i ≢ i → IsLeastChild (smallest h i)
  smallest-IsLeastChild n = record {
    exists = smallest_inside;
    child = ground arith;
    lower = ground arith;
    least_child = λ c p q e. ground (arith, children c p e);
  }

module _ (h : Heap) (i : ℕ) (v : DownInv h i) (m : ℕ) (l : IsLeastChild h i v m) where
  apart : i ≢ m
  apart = ground (arith, l.child)

  abbrev sunk : Heap
  sunk = swapped h v.well i m v.inside l.exists apart

  key-sunk :
      (c : ℕ)
      → c < h.size
      → key sunk c ≡ (if c == i then key h m else if c == m then key h i else key h c)
  key-sunk = key-swapped h v.well i m v.inside l.exists apart

  sunk-DownInv : DownInv sunk m
  sunk-DownInv = record {
    well = swapped-WellFormed h v.well i m v.inside l.exists apart;
    inside = l.exists;
    edges = λ c p q n.
        ground (arith, key-sunk c, key-sunk (parent c), v.edges c, v.bridged m, l, l.least_child c);
    bridged = λ c p q e r. ground (arith, key-sunk c, key-sunk (parent m), v.edges c, l);
  }

  sunk-Rearranged : Rearranged h sunk
  sunk-Rearranged = swapped-Rearranged h v.well i m v.inside l.exists apart

  swap-sunk : swap h i m ≡ ok sunk
  swap-sunk = swap-ok h v.well i m v.inside l.exists apart

bubble_down_loop-Restored :
    (k : ℕ) (h : Heap) (i : ℕ)
    → h.size - i < k
    → DownInv h i
    → Returns (Restored h) (bubble_down_loop k h i)
bubble_down_loop-Restored zero h i f v = absurd (omega arith)
bubble_down_loop-Restored (suc k) h i f v = elim (ℕ_discrete (smallest h i) i) [
  | yes settled ↦
      let o = settled-IsHeap h i v settled in
      ground (arith, bubble_down_loop-branches h i v k, v.well, o, Rearranged-refl h)
  | no lower ↦
      sink (smallest h i) (smallest-IsLeastChild h i v lower) lower
        (bubble_down_loop-branches h i v k) (λ m g p w. bubble_down_loop-Restored k g m p w)
]
  where
    sink :
        (m : ℕ)
        → IsLeastChild h i v m
        → m ≢ i
        → bubble_down_loop (suc k) h i
          ≡ (if m == i then ok h else (swap h i m >>= λ h'. bubble_down_loop k h' m))
        → ((m : ℕ) (g : Heap)
            → g.size - m < k
            → DownInv g m
            → Returns (Restored g) (bubble_down_loop k g m))
        → Returns (Restored h) (bubble_down_loop (suc k) h i)
    sink m l n e ih =
        let g = sunk h i v m l in
        let step : bubble_down_loop (suc k) h i ≡ bubble_down_loop k g m =
          ground (arith, e, swap-sunk h i v m l) in
        rw step (
          Returns-map (Restored g) (Restored h) (bubble_down_loop k g m)
            (ih m g (ground (arith, l)) (sunk-DownInv h i v m l))
            λ h' r. (r.0, r.1, Rearranged-trans h g h' (sunk-Rearranged h i v m l) r.2))

-- An entry that is too high in the tree sinks to its place; the other entries stay in order.
pub bubble_down-Restored : (h : Heap) (i : ℕ) → DownInv h i → Returns (Restored h) (bubble_down h i)
unfolding bubble_down
bubble_down-Restored h i v = bubble_down_loop-Restored (h.size + 1) h i (omega arith) v
