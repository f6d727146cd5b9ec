-- ===== src/ChunkPolicy/Tests.antt =====
-- A chunk policy over six zones of two chunks, with the first three zones written.
use znworkload.Prelude.{
  ℕ, ◌+◌, ◌<◌, ◌≡◌, ◌^◌, refl, ap, sym, subst, false, none, some, List, [], ◌∷◌, arith, get_elem?,
}
use znworkload.Run.{Run, ok, Returns, Returns-ok}
use znworkload.Backend.{Pair}
use znworkload.Promotional.{write}
use znworkload.Minheap.{insert, set_slot, bubble_up, priority_at, slot}
use znworkload.ChunkPolicy.{PolicyChunk, PoolZone, chunk_ptr, chunk_update}
use znworkload.ChunkPolicy.Invariant.{Inv, order_of}
use znworkload.ChunkPolicy.Access.{ChunkAccessed, chunk_update-ChunkAccessed}
use znworkload.EvictPolicy.{chunk_init}
use znworkload.EvictPolicy.Start.{chunk_init-Inv}

abbrev zones : ℕ → PoolZone
zones z = record {
  zone_id = 0;
  chunks = [];
  chunks_in_use = 0;
  filled = false;
  pqueue_entry = none;
}

abbrev chunks : ℕ → ℕ → Pair
chunks z c = record { zone = 0; chunk_offset = 0; id = 0; in_use = false }

abbrev start : PolicyChunk
start = chunk_init zones chunks 6 2

start-Inv : Inv start
start-Inv = chunk_init-Inv zones chunks 2 6 (λ z. refl) (omega arith) (omega arith) (omega arith)

abbrev at : ℕ → ℕ → Pair
at z c = record { zone = z; chunk_offset = c; id = 0; in_use = false }

-- The policy that a call returns, and the one before where the call does not return.
abbrev value : PolicyChunk → Run PolicyChunk → PolicyChunk
value p (ok q) = q
value p _ = p

abbrev next : PolicyChunk → ℕ → ℕ → PolicyChunk
next p z c = value p (chunk_update p (at z c) write)

abbrev first : PolicyChunk
first = next start 0 0

abbrev second : PolicyChunk
second = next first 0 1

abbrev pub zone_in : PolicyChunk → ℕ → PoolZone
zone_in p z = elim (get_elem? p.zone_pool z) [ none ↦ zones z | some zpc ↦ zpc ]

abbrev pub chunk_in : PolicyChunk → ℕ → ℕ → Pair
chunk_in p z c = elim (get_elem? (zone_in p z).chunks c) [ none ↦ at z c | some zp ↦ zp ]

chunk_update-ChunkAccessed_example :
    Returns (ChunkAccessed start (at 0 0) write) (chunk_update start (at 0 0) write)
unfolding chunk_init chunk_update
chunk_update-ChunkAccessed_example =
    chunk_update-ChunkAccessed start (at 0 0) write (zone_in start 0) (chunk_in start 0 0) start-Inv
      refl refl (refl, refl, omega arith)

next-Inv :
    (p : PolicyChunk) (z c : ℕ)
    → Inv p
    → get_elem? p.zone_pool z ≡ some (zone_in p z)
    → get_elem? (zone_in p z).chunks c ≡ some (chunk_in p z c)
    → (chunk_in p z c).in_use ≡ false
    → (zone_in p z).filled ≡ false
    → p.invalid_pqueue.size + 1 < 2 ^ 31
    → Inv (next p z c)
next-Inv p z c v f g u o s =
    let (q, e, w) = Returns-ok (ChunkAccessed p (at z c) write) (chunk_update p (at z c) write) (
      chunk_update-ChunkAccessed p (at z c) write (zone_in p z) (chunk_in p z c) v f g (u, o, s)) in
    let same : q ≡ next p z c = sym (ap (value p) e) in subst Inv same w.inv

first-Inv : Inv first
unfolding chunk_init chunk_update
first-Inv = next-Inv start 0 0 start-Inv refl refl refl refl (omega arith)

second-Inv : Inv second
unfolding chunk_init chunk_update insert set_slot bubble_up priority_at slot
second-Inv = next-Inv first 0 1 first-Inv refl refl refl refl (omega arith)

abbrev third : PolicyChunk
third = next second 1 0

third-Inv : Inv third
unfolding chunk_init chunk_update insert set_slot bubble_up priority_at slot
third-Inv = next-Inv second 1 0 second-Inv refl refl refl refl (omega arith)

abbrev fourth : PolicyChunk
fourth = next third 1 1

fourth-Inv : Inv fourth
unfolding chunk_init chunk_update insert set_slot bubble_up priority_at slot
fourth-Inv = next-Inv third 1 1 third-Inv refl refl refl refl (omega arith)

abbrev fifth : PolicyChunk
fifth = next fourth 2 0

fifth-Inv : Inv fifth
unfolding chunk_init chunk_update insert set_slot bubble_up priority_at slot
fifth-Inv = next-Inv fourth 2 0 fourth-Inv refl refl refl refl (omega arith)

abbrev pub sixth : PolicyChunk
sixth = next fifth 2 1

pub sixth-Inv : Inv sixth
unfolding chunk_init chunk_update insert set_slot bubble_up priority_at slot
sixth-Inv = next-Inv fifth 2 1 fifth-Inv refl refl refl refl (omega arith)

abbrev pub written : List ℕ
written =
    chunk_ptr 0 0
    ∷ chunk_ptr 0 1
    ∷ chunk_ptr 1 0
    ∷ chunk_ptr 1 1
    ∷ chunk_ptr 2 0
    ∷ chunk_ptr 2 1
    ∷ []

pub sixth_order : order_of sixth ≡ written
unfolding chunk_init chunk_update insert set_slot bubble_up priority_at slot
sixth_order = refl
