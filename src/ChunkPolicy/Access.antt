-- ===== src/ChunkPolicy/Access.antt =====
-- zn_policy_chunk_update as a whole: a write, with the zone that it may fill, and a read.
use znworkload.Prelude.{
  ℕ, ◌+◌, ◌<◌, ◌≡◌, ◌≢◌, ◌^◌, true, false, some, [], ◌∷◌, ◌++◌, if◌then◌else◌, ◌==◌, arith,
  get_elem?, get_elem?-set, get_elem?-lt, Bool-cases, inl, inr, u64,
}
use znworkload.Run.{Returns, Returns-bind}
use znworkload.Backend.{Pair}
use znworkload.Minheap.{insert}
use znworkload.Minheap.Insert.{Inserted, insert-Inserted}
use znworkload.Promotional.{IoType, read, write}
use znworkload.ChunkPolicy.{
  PolicyChunk, PoolZone, chunk_ptr, chunk_update, chunk_written, fill_zone,
}
use znworkload.ChunkPolicy.Written.{
  new_zone, pushed, order-pushed, after_set, pushed-Inv, full_zone, filled-Inv, pool_filled,
}
use znworkload.ChunkPolicy.Update.{ChunkUsed, chunk_read-ChunkUsed}
use znworkload.ChunkPolicy.Invariant.{Inv, order_of}

-- What a write leaves: the chunk is in use and last in the order, and its zone is in the heap if
-- this was its last chunk; no other zone has changed.
pub record ChunkWritten (p : PolicyChunk) (location : Pair) (q : PolicyChunk) : Type 0 where
  pub inv : Inv q
  pub order : order_of q ≡ order_of p ++ chunk_ptr location.zone location.chunk_offset ∷ []
  pub zone : PoolZone
  pub zone_found : get_elem? q.zone_pool location.zone ≡ some zone
  pub chunk_found :
      get_elem? zone.chunks location.chunk_offset ≡ some (record location { in_use = true })
  pub fills : zone.filled ≡ (location.chunk_offset + 1 == p.max_zone_chunks)
  pub others : (y : ℕ) → y ≢ location.zone → get_elem? q.zone_pool y ≡ get_elem? p.zone_pool y

module _ (p : PolicyChunk) (v : Inv p) (location : Pair) (zpc : PoolZone) (zp : Pair)
    (zone_found : get_elem? p.zone_pool location.zone ≡ some zpc)
    (chunk_found : get_elem? zpc.chunks location.chunk_offset ≡ some zp)
    (unused : zp.in_use ≡ false) (open_zone : zpc.filled ≡ false)
    (small : p.invalid_pqueue.size + 1 < 2 ^ 31) where
  abbrev after : PolicyChunk
  after = pushed p v location zpc zp zone_found chunk_found unused open_zone

  abbrev zone_after : PoolZone
  zone_after = new_zone p v location zpc zp zone_found chunk_found unused open_zone

  after-Inv : Inv after
  after-Inv = pushed-Inv p v location zpc zp zone_found chunk_found unused open_zone

  pool_after :
      (y : ℕ)
      → get_elem? after.zone_pool y
        ≡ (if location.zone == y then some zone_after else get_elem? p.zone_pool y)
  pool_after y =
      get_elem?-set p.zone_pool location.zone y zone_after
        (get_elem?-lt p.zone_pool location.zone zone_found)

  placed_chunk :
      get_elem? zone_after.chunks location.chunk_offset ≡ some (record location { in_use = true })
  placed_chunk =
      let e =
        after_set p v location zpc zp zone_found chunk_found unused open_zone
          location.chunk_offset in
      ground (arith, e)

  last : u64 (p.max_zone_chunks + 18446744073709551615) + 1 ≡ p.max_zone_chunks
  last = omega (arith, v.max_pos, v.max_small)

  pub chunk_written-ChunkWritten :
      Returns (ChunkWritten p location) (chunk_written p location zpc zp)
  unfolding chunk_written fill_zone
  chunk_written-ChunkWritten =
      elim (Bool-cases (location.chunk_offset == u64 (p.max_zone_chunks + 18446744073709551615))) [
        | inr more ↦
            rw (unused, more)
              (record {
                inv = after-Inv;
                order = order-pushed p v location zpc zp zone_found chunk_found unused open_zone;
                zone = zone_after;
                zone_found = ground (arith, pool_after location.zone);
                chunk_found = placed_chunk;
                fills = ground (arith, open_zone, more, last);
                others = λ y d. ground (arith, pool_after y, d);
              })
        | inl full ↦
            let there : get_elem? after.zone_pool location.zone ≡ some zone_after =
              ground (arith, pool_after location.zone) in
            rw (unused, full)
              (Returns-bind (Inserted p.invalid_pqueue location.zone zone_after.chunks_in_use)
                (ChunkWritten p location) _
                (insert p.invalid_pqueue location.zone zone_after.chunks_in_use)
                (insert-Inserted p.invalid_pqueue location.zone zone_after.chunks_in_use v.heap.0
                  v.heap.1 small)
                λ r i.
                  let set_full =
                    pool_filled after after-Inv location.zone zone_after there open_zone r i in
                  record {
                    inv = filled-Inv after after-Inv location.zone zone_after there open_zone r i;
                    order =
                        order-pushed p v location zpc zp zone_found chunk_found unused open_zone;
                    zone = full_zone after after-Inv location.zone zone_after there open_zone r i;
                    zone_found = ground (arith, set_full location.zone);
                    chunk_found = placed_chunk;
                    fills = ground (arith, full, last);
                    others = λ y d. ground (arith, set_full y, pool_after y, d);
                  })
      ]

-- A write needs a chunk that is not in use, in a zone that has not been filled, and room in the
-- heap.
abbrev pub Allowed : PolicyChunk → PoolZone → Pair → IoType → Type 0
Allowed p zpc zp write =
    (zp.in_use ≡ false) × (zpc.filled ≡ false) × (p.invalid_pqueue.size + 1 < 2 ^ 31)
Allowed p zpc zp read = Unit {0}

abbrev pub ChunkAccessed : PolicyChunk → Pair → IoType → PolicyChunk → Type 0
ChunkAccessed p location write q = ChunkWritten p location q
ChunkAccessed p location read q = ChunkUsed p (chunk_ptr location.zone location.chunk_offset) q

-- With the invariant of the chunk policy, zn_policy_chunk_update of a chunk of the pool returns
-- and keeps the invariant. A write needs a chunk that is not in use, in a zone that has not been
-- filled, and fewer than 2^31 - 1 entries in the heap; the chunk is then in use and the most
-- recently used, its zone is in the heap if this was its last chunk, and no other zone has
-- changed. A read makes the chunk the most recently used if the queue has it, and changes nothing
-- otherwise.
pub chunk_update-ChunkAccessed :
    (p : PolicyChunk) (location : Pair) (io : IoType) (zpc : PoolZone) (zp : Pair)
    → Inv p
    → get_elem? p.zone_pool location.zone ≡ some zpc
    → get_elem? zpc.chunks location.chunk_offset ≡ some zp
    → Allowed p zpc zp io
    → Returns (ChunkAccessed p location io) (chunk_update p location io)
unfolding chunk_update
chunk_update-ChunkAccessed p location write zpc zp v zone_found chunk_found a =
    let o = v.placed location.zone zpc zone_found in
    let l = get_elem?-lt zpc.chunks location.chunk_offset chunk_found in
    let k = o.key location.chunk_offset (omega (arith, l, o.size)) in
    rw (zone_found, chunk_found, k)
      (chunk_written-ChunkWritten p v location zpc zp zone_found chunk_found a.0 a.1 a.2)
chunk_update-ChunkAccessed p location read zpc zp v zone_found chunk_found a =
    let o = v.placed location.zone zpc zone_found in
    let l = get_elem?-lt zpc.chunks location.chunk_offset chunk_found in
    let k = o.key location.chunk_offset (omega (arith, l, o.size)) in
    rw (zone_found, chunk_found, k)
      (chunk_read-ChunkUsed p v (chunk_ptr location.zone location.chunk_offset))
