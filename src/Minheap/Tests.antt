-- ===== src/Minheap/Tests.antt =====
-- Runs of the heap, and its theorems at concrete heaps.
use znworkload.Prelude.{ℕ, ◌≡◌, refl, if◌then◌else◌, false, some, none, arith}
use znworkload.Run.{Run, ok, Returns, ◌>>=◌}
use znworkload.Minheap.{
  Heap, init, insert, extract_min, update_by_entry, bubble_up, bubble_down, slot, set_slot,
  set_index, swap, priority_at, smaller, minheap_realloc, update_entry, destroy,
}
use znworkload.Minheap.Order.{holds}
use znworkload.Minheap.Insert.{IsValid, Inserted, insert-Inserted, init-IsValid}
use znworkload.Minheap.Extract.{ExtractedMin, extract_min-Extracted}
use znworkload.Minheap.Destroy.{destroy-Destroyed}
use znworkload.Minheap.Change.{Updated, update_by_entry-Updated}

abbrev empty : Heap
empty = record { arr = λ _. none; size = 0; capacity = 1; entry = λ _. none; next = 0 }

init-IsValid_example :
    IsValid (init (λ _. none) 0 1) × ((a : ℕ) → holds (init (λ _. none) 0 1) a ≡ false)
init-IsValid_example = init-IsValid (λ _. none) 0 1 (omega arith) (λ a h. refl)

empty-IsValid : IsValid empty
unfolding init
empty-IsValid = init-IsValid_example.0

insert-Inserted_example : Returns (Inserted empty 70 7) (insert empty 70 7)
insert-Inserted_example = insert-Inserted empty 70 7 empty-IsValid.0 empty-IsValid.1 (omega arith)

-- The heap after a call that returns.
abbrev heap_of : Run (Heap × ℕ) → Heap
heap_of (ok (h, a)) = h
heap_of _ = empty

heap_of-IsValid :
    (h : Heap) (payload priority : ℕ) (r : Run (Heap × ℕ))
    → Returns (Inserted h payload priority) r
    → IsValid (heap_of r)
heap_of-IsValid h payload priority (ok (g, a)) i = i.valid
heap_of-IsValid h payload priority Run.abort i = absurd i
heap_of-IsValid h payload priority Run.crash i = absurd i

-- Zones 70, 50 and 90 with 7, 5 and 9 chunks in use, at the addresses 0, 1 and 2.
one : Heap
one = heap_of (insert empty 70 7)

two : Heap
unfolding one
two = heap_of (insert one 50 5)

three : Heap
unfolding two
three = heap_of (insert two 90 9)

one-IsValid : IsValid one
unfolding one
one-IsValid = heap_of-IsValid empty 70 7 _ insert-Inserted_example

one_size : one.size ≡ 1
unfolding one insert bubble_up set_slot minheap_realloc
one_size = refl

two-IsValid : IsValid two
unfolding two
two-IsValid =
    heap_of-IsValid one 50 5 (insert one 50 5)
      (insert-Inserted one 50 5 one-IsValid.0 one-IsValid.1 (omega (arith, one_size)))

two_size : two.size ≡ 2
unfolding two insert bubble_up set_slot slot set_index swap priority_at minheap_realloc
two_size = refl

three-IsValid : IsValid three
unfolding three
three-IsValid =
    heap_of-IsValid two 90 9 (insert two 90 9)
      (insert-Inserted two 90 9 two-IsValid.0 two-IsValid.1 (omega (arith, two_size)))

extract_min-Extracted_example : Returns (ExtractedMin three) (extract_min three)
extract_min-Extracted_example = extract_min-Extracted three three-IsValid.0 three-IsValid.1

-- The entry of zone 50 is at the root.
root_entry : three.entry 1 ≡ some (record { payload = 50; priority = 5; index = 0 })
unfolding three insert bubble_up set_slot slot set_index swap priority_at minheap_realloc
root_entry = refl

update_by_entry-Updated_example :
    Returns
      (Updated three 1 (record { payload = 50; priority = 5; index = 0 }) 8)
      (update_by_entry three (some 1) 8)
update_by_entry-Updated_example =
    update_by_entry-Updated three 1 (record { payload = 50; priority = 5; index = 0 }) 8
      three-IsValid.0 three-IsValid.1 root_entry

-- After the root's priority has grown past that of zone 70, the latter is extracted first.
abbrev second : Run (Heap × ℕ) → Run ℕ
second r = r >>= λ (h, _). extract_min h >>= λ (g, a). priority_at g 0

grown : second (update_by_entry three (some 1) 8) ≡ ok 8
unfolding three insert bubble_up bubble_down set_slot slot set_index swap priority_at smaller
    minheap_realloc extract_min update_by_entry update_entry
grown = refl

two_destroyed :
    Returns
      (λ entry. (a : ℕ) → entry a ≡ (if holds three a then none else three.entry a))
      (destroy three)
two_destroyed = destroy-Destroyed three three-IsValid.0
