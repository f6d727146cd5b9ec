-- ===== src/Minheap/Order.antt =====
-- What a well-formed heap is, its order, and the entries that it holds.
use znworkload.Prelude.{
  ℕ, zero, suc, ◌≤◌, ◌<◌, ◌≡◌, ◌^◌, Bool, false, ◌&&◌, Option, some, none, arith, ltb, ◌==◌,
}
use znworkload.Minheap.{Heap, Entry, parent}

-- The pointer in a slot below the size is to an allocated entry that knows its slot.
pub record Slot (h : Heap) (i : ℕ) : Type 0 where
  pub addr : ℕ
  pub stored : Entry
  pub points : h.arr i ≡ some addr
  pub there : h.entry addr ≡ some stored
  pub knows : stored.index ≡ i

pub record WellFormed (h : Heap) : Type 0 where
  pub slots : (i : ℕ) → i < h.size → Slot h i
  pub room : h.size ≤ h.capacity
  pub small : h.size < 2 ^ 31
  pub pos : 0 < h.capacity
  pub fresh : (a : ℕ) → h.next ≤ a → h.entry a ≡ none

abbrev through : Option ℕ → (ℕ → Option Entry) → Option Entry
through none entry = none
through (some a) entry = entry a

abbrev priority_of : Option Entry → ℕ
priority_of none = 0
priority_of (some e) = e.priority

-- The priority of the entry in a slot.
abbrev pub key : Heap → ℕ → ℕ
key h i = priority_of (through (h.arr i) h.entry)

-- No parent has a greater priority value than its child.
abbrev pub IsHeap : Heap → Type 0
IsHeap h = (c : ℕ) → 0 < c → c < h.size → key h (parent c) ≤ key h c

abbrev is_at : Option ℕ → ℕ → Bool
is_at none a = false
is_at (some b) a = b == a

abbrev holds_entry : Heap → ℕ → Option Entry → Bool
holds_entry h a none = false
holds_entry h a (some e) = ltb e.index h.size && is_at (h.arr e.index) a

-- Whether the entry at an address is in the heap.
abbrev pub holds : Heap → ℕ → Bool
holds h a = holds_entry h a (h.entry a)

abbrev pub content_of : Option Entry → Option (ℕ × ℕ)
content_of none = none
content_of (some e) = some (e.payload, e.priority)

-- What is stored at an address, but for the index.
abbrev pub content : Heap → ℕ → Option (ℕ × ℕ)
content h a = content_of (h.entry a)

-- The same entries with the same contents, in another order.
pub record Rearranged (g h : Heap) : Type 0 where
  pub same_holds : (a : ℕ) → holds h a ≡ holds g a
  pub same_content : (a : ℕ) → content h a ≡ content g a
  pub same_size : h.size ≡ g.size
  pub same_capacity : h.capacity ≡ g.capacity
  pub same_next : h.next ≡ g.next

pub Rearranged-refl : (h : Heap) → Rearranged h h
Rearranged-refl h = ground arith

pub Rearranged-trans : (f g h : Heap) → Rearranged f g → Rearranged g h → Rearranged f h
Rearranged-trans f g h r s = record {
  same_holds = λ a. ground (arith, r.same_holds a, s.same_holds a);
  same_content = λ a. ground (arith, r.same_content a, s.same_content a);
  same_size = omega (arith, r.same_size, s.same_size);
  same_capacity = omega (arith, r.same_capacity, s.same_capacity);
  same_next = omega (arith, r.same_next, s.same_next);
}

root_least_below : (k : ℕ) (h : Heap) (i : ℕ) → IsHeap h → i < k → i < h.size → key h 0 ≤ key h i
root_least_below zero h i o f p = absurd (omega arith)
root_least_below (suc k) h i o f p = ground (arith, o i, root_least_below k h (parent i) o)

-- The entry at the root has the least priority value.
pub root_least : (h : Heap) (i : ℕ) → IsHeap h → i < h.size → key h 0 ≤ key h i
root_least h i o p = root_least_below (suc i) h i o (omega arith) p
