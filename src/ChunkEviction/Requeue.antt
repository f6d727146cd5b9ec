-- ===== src/ChunkEviction/Requeue.antt =====
-- zn_minheap_update_by_entry on the entry of a zone, or on NULL if the zone was never full.
use znworkload.Prelude.{
  ℕ, ◌<◌, ◌≡◌, Bool, true, false, Option, some, none, arith, Option-cases, inl, inr,
}
use znworkload.Run.{Returns, Returns-map}
use znworkload.Minheap.{Heap, Entry, update_by_entry}
use znworkload.Minheap.Order.{holds}
use znworkload.Minheap.Insert.{IsValid}
use znworkload.Minheap.Change.{Updated, update_by_entry-Updated}
use znworkload.ChunkPolicy.Invariant.{Queued, HeapKeeps}

-- The zone's entry has the new priority, and the others stay.
pub record Requeued (h : Heap) (z n : ℕ) (filled : Bool) (entry : Option ℕ) (g : Heap)
    : Type 0 where
  pub valid : IsValid g
  pub queued : Queued g z n filled entry
  pub keeps : HeapKeeps z h g

held_entry :
    (h : Heap) (a : ℕ) → holds h a ≡ true → (e : Entry) × (h.entry a ≡ some e) × (e.index < h.size)
held_entry h a held = elim (Option-cases (h.entry a)) [
  | inl gone ↦ absurd (ground (arith, held, gone))
  | inr (e, there) ↦ (e, there, ground (arith, held, there))
]

pub update_by_entry-Requeued :
    (h : Heap) (z n m : ℕ) (filled : Bool) (entry : Option ℕ)
    → IsValid h
    → Queued h z n filled entry
    → Returns (λ r. Requeued h z m filled entry r.0) (update_by_entry h entry m)
unfolding update_by_entry
update_by_entry-Requeued h z n m true none v q = absurd q
update_by_entry-Requeued h z n m false (some a) v q = absurd q
update_by_entry-Requeued h z n m false none v q = record {
  valid = v;
  queued = tt;
  keeps = λ a y k d held kept. (held, kept);
}
update_by_entry-Requeued h z n m true (some a) v q =
    let (e, there, inside) = held_entry h a q.0 in
    Returns-map (Updated h a e m) (λ r. Requeued h z m true (some a) r.0)
      (update_by_entry h (some a) m) (update_by_entry-Updated h a e m v.0 v.1 there)
      λ (g, ret) u. elim u [
        | inl stale ↦ absurd (omega (arith, stale.0, inside))
        | inr (_, c, _) ↦ record {
          valid = c.valid;
          queued = ground (arith, c.same_held a, c.kept a, q, there);
          keeps =
              λ b y k d held kept. ground (arith, c.same_held b, c.kept b, q, there, d, held, kept);
        }
      ]
