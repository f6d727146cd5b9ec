-- ===== src/Minheap.antt =====
-- include/minheap.h and src/minheap.c: a binary min-heap of pointers to entries.
-- Memory is explicit: `arr` is the array of pointers, where `none` is a slot that was never
-- written, and `entry` holds the allocated entries by address; `next` is the address of the next
-- allocation. Reads and writes outside the array, of unwritten slots and of unallocated entries
-- crash. An allocation succeeds (its failure ends in an assertion). `data` is an opaque number.
pub mod Order
pub mod Swap
pub mod Up
pub mod Down
pub mod Insert
pub mod Extract
pub mod Change
pub mod Destroy
mod Tests
use znworkload.Prelude.{
  ℕ, zero, suc, ◌+◌, ◌-◌, ◌*◌, ◌/◌, Bool, true, false, ◌&&◌, Option, some, none, ltb, leb, ◌==◌,
  if◌then◌else◌, u32, minus_one,
}
use znworkload.Run.{Run, ok, abort, crash, ◌>>=◌, deref}

-- struct zn_minheap_entry
pub record Entry : Type 0 where
  pub payload : ℕ
  pub priority : ℕ
  pub index : ℕ

-- struct zn_minheap, with the memory that it points to
pub record Heap : Type 0 where
  pub arr : ℕ → Option ℕ
  pub size : ℕ
  pub capacity : ℕ
  pub entry : ℕ → Option Entry
  pub next : ℕ

abbrev pub update {ℓ} : {A : Type ℓ} → (ℕ → A) → ℕ → A → ℕ → A
update f i v j = if i == j then v else f j

-- heap->arr[i]
unfoldable pub slot : Heap → ℕ → Run ℕ
slot h i = if ltb i h.capacity then deref (h.arr i) else crash

-- heap->arr[i] = a
unfoldable pub set_slot : Heap → ℕ → ℕ → Run Heap
set_slot h i a = if ltb i h.capacity then ok (record h { arr = update h.arr i (some a) }) else crash

-- *a
abbrev pub load : Heap → ℕ → Run Entry
load h a = deref (h.entry a)

abbrev pub store : Heap → ℕ → Entry → Heap
store h a e = record h { entry = update h.entry a (some e) }

-- heap->arr[i]->index = i
unfoldable pub set_index : Heap → ℕ → Run Heap
set_index h i = do a ← slot h i; e ← load h a; ok (store h a (record e { index = i }))

-- heap->arr[i]->priority
unfoldable pub priority_at : Heap → ℕ → Run ℕ
priority_at h i = do a ← slot h i; e ← load h a; ok e.priority

-- The exchange of two pointers in both bubble loops, with the update of the index fields.
unfoldable pub swap : Heap → ℕ → ℕ → Run Heap
swap h i j = do
  tmp ← slot h i
  other ← slot h j
  h ← set_slot h i other
  h ← set_slot h j tmp
  h ← set_index h i
  set_index h j

abbrev pub parent : ℕ → ℕ
parent i = (i - 1) / 2

-- bubble_up; each round more than halves the index
unfoldable pub bubble_up_loop : ℕ → Heap → ℕ → Run Heap
bubble_up_loop zero h i = crash
bubble_up_loop (suc k) h i =
    let rise = swap h i (parent i) >>= λ h'. bubble_up_loop k h' (parent i) in
    let step = do x ← priority_at h i; y ← priority_at h (parent i); if ltb x y then rise else ok h
    in if ltb 0 i then step else ok h

unfoldable pub bubble_up : Heap → ℕ → Run Heap
unfolding bubble_up_loop
bubble_up h i = bubble_up_loop (i + 1) h i

-- `if (child < size && arr[child]->priority < arr[smallest]->priority) smallest = child;`
unfoldable pub smaller : Heap → ℕ → ℕ → Run ℕ
smaller h child smallest =
    if ltb child h.size
    then (do
      x ← priority_at h child
      y ← priority_at h smallest
      ok (if ltb x y then child else smallest))
    else ok smallest

-- bubble_down; the index grows with each round and stays below the size
unfoldable pub bubble_down_loop : ℕ → Heap → ℕ → Run Heap
bubble_down_loop zero h i = crash
bubble_down_loop (suc k) h i = do
  first ← smaller h (u32 (2 * i + 1)) i
  smallest ← smaller h (u32 (2 * i + 2)) first
  let sink = swap h i smallest >>= λ h'. bubble_down_loop k h' smallest
  if smallest == i then ok h else sink

unfoldable pub bubble_down : Heap → ℕ → Run Heap
unfolding bubble_down_loop
bubble_down h i = bubble_down_loop (h.size + 1) h i

-- zn_minheap_init, on memory where the entries below `next` are in use
unfoldable pub init : (ℕ → Option Entry) → ℕ → ℕ → Heap
init entry next capacity = record {
  arr = λ _. none;
  size = 0;
  capacity = capacity;
  entry = entry;
  next = next;
}

-- minheap_realloc
unfoldable pub minheap_realloc : Heap → Heap
minheap_realloc h = record h { capacity = u32 (h.capacity * 2) }

-- zn_minheap_insert, with the address of the new entry
unfoldable pub insert : Heap → ℕ → ℕ → Run (Heap × ℕ)
insert h payload priority = do
  let g = if h.size == h.capacity then minheap_realloc h else h
  let a = g.next
  let new_entry : Entry = record { payload = payload; priority = priority; index = g.size }
  g ← set_slot (record (store g a new_entry) { next = a + 1 }) g.size a
  let g = record g { size = u32 (g.size + 1) }
  e ← load g a
  g ← bubble_up g e.index
  ok (g, a)

-- zn_minheap_extract_min, with `none` for NULL
unfoldable pub extract_min : Heap → Run (Heap × Option ℕ)
extract_min h = if h.size == 0 then ok (h, none) else do
  min_entry ← slot h 0
  let g = record h { size = h.size - 1 }
  g ←
      (if ltb 0 g.size
        then (do last ← slot g g.size; g ← set_slot g 0 last; g ← set_index g 0; bubble_down g 0)
        else ok g)
  ok (g, some min_entry)

-- zn_minheap_update_by_entry on an entry that is not NULL
unfoldable pub update_entry : Heap → ℕ → ℕ → Run (Heap × ℕ)
update_entry h a new_priority = do
  e ← load h a
  if leb h.size e.index then ok (h, minus_one) else do
    let g = store h a (record e { priority = new_priority })
    g ←
        (if ltb new_priority e.priority
          then bubble_up g e.index
          else if ltb e.priority new_priority
          then bubble_down g e.index
          else ok g)
    ok (g, 0)

-- zn_minheap_update_by_entry
unfoldable pub update_by_entry : Heap → Option ℕ → ℕ → Run (Heap × ℕ)
update_by_entry h none new_priority = ok (h, minus_one)
update_by_entry h (some a) new_priority = update_entry h a new_priority

-- free of an entry's address; a second free of it crashes
abbrev pub free_entry : Heap → ℕ → Run Heap
free_entry h a = do e ← load h a; ok (record h { entry = update h.entry a none })

-- The loop of zn_minheap_destroy, with the rounds left first.
unfoldable pub free_entries : ℕ → ℕ → Heap → Run Heap
free_entries zero i h = ok h
free_entries (suc k) i h = do a ← slot h i; g ← free_entry h a; free_entries k (i + 1) g

-- zn_minheap_destroy, with the entries that it leaves in memory
unfoldable pub destroy : Heap → Run (ℕ → Option Entry)
unfolding free_entries
destroy h = do g ← free_entries h.size 0 h; ok g.entry
