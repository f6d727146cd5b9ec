-- ===== src/ChunkPolicy/Invariant.antt =====
-- What links the queue, the table, the pool and the heap of the chunk policy.
use znworkload.Prelude.{
  ℕ, ◌+◌, ◌<◌, ◌≡◌, ◌≢◌, ◌^◌, refl, sym, Bool, true, false, Option, some, none, List, if◌then◌else◌,
  ◌==◌, arith, occ, length, get_elem?, set, count, get_elem?-set, ℕ_discrete, get_elem?-lt,
  get_elem?-some,
}
use znworkload.Backend.{Pair}
use znworkload.Minheap.{Heap}
use znworkload.Minheap.Order.{holds, content}
use znworkload.Minheap.Insert.{IsValid}
use znworkload.Promotional.{Policy}
use znworkload.Promotional.Lru
use znworkload.ChunkPolicy.{PolicyChunk, PoolZone, chunk_ptr, ptr_zone, ptr_chunk}

-- The queue and the table alone, as the promotional policy has them.
abbrev pub lru_of : PolicyChunk → Policy
lru_of p = record {
  lru_queue = p.lru_queue;
  zone_to_lru_map = p.chunk_to_lru_map;
  zone_max_chunks = p.max_zone_chunks;
  next_link = p.next_link;
}

-- The chunks in least recently used order.
abbrev pub order_of : PolicyChunk → List ℕ
order_of p = Lru.order p.lru_queue

-- A zone that is full has an entry in the heap with its number of chunks in use, and no other has.
abbrev pub Queued : Heap → ℕ → ℕ → Bool → Option ℕ → Type 0
Queued h z n true (some a) = (holds h a ≡ true) × (content h a ≡ some (z, n))
Queued h z n true none = ⊥
Queued h z n false (some a) = ⊥
Queued h z n false none = Unit {0}

pub record ZonePlaced (p : PolicyChunk) (z : ℕ) (pz : PoolZone) : Type 0 where
  pub size : length pz.chunks ≡ p.max_zone_chunks
  pub counted : pz.chunks_in_use ≡ count (λ c. c.in_use) pz.chunks
  pub at_place :
      (c : ℕ) (zp : Pair)
      → get_elem? pz.chunks c ≡ some zp
      → zp.in_use ≡ true
      → (zp.zone ≡ z) × (zp.chunk_offset ≡ c)
  pub in_lru :
      (c : ℕ) (zp : Pair)
      → get_elem? pz.chunks c ≡ some zp
      → occ (chunk_ptr z c) (order_of p) ≡ (if zp.in_use then 1 else 0)
  pub key : (c : ℕ) → c < p.max_zone_chunks → p.chunk_keys (chunk_ptr z c) ≡ true
  pub queued : Queued p.invalid_pqueue z pz.chunks_in_use pz.filled pz.pqueue_entry

-- A pointer of the queue is to a chunk of the pool.
pub record InPool (p : PolicyChunk) (ptr : ℕ) : Type 0 where
  pub zone : PoolZone
  pub chunk : Pair
  pub zone_found : get_elem? p.zone_pool (ptr_zone ptr) ≡ some zone
  pub chunk_found : get_elem? zone.chunks (ptr_chunk ptr) ≡ some chunk

pub record Inv (p : PolicyChunk) : Type 0 where
  pub lru : Lru.Inv (lru_of p)
  pub heap : IsValid p.invalid_pqueue
  pub placed : (z : ℕ) (pz : PoolZone) → get_elem? p.zone_pool z ≡ some pz → ZonePlaced p z pz
  pub in_pool : (ptr : ℕ) → 0 < occ ptr (order_of p) → InPool p ptr
  pub max_pos : 0 < p.max_zone_chunks
  pub max_small : p.max_zone_chunks < 2 ^ 32

-- The heap keeps the entries of the zones other than `z`.
abbrev pub HeapKeeps : ℕ → Heap → Heap → Type 0
HeapKeeps z g h =
    (a y n : ℕ)
    → y ≢ z
    → holds g a ≡ true
    → content g a ≡ some (y, n)
    → (holds h a ≡ true) × (content h a ≡ some (y, n))

Queued-keeps :
    (z y n : ℕ) (g h : Heap) (filled : Bool) (entry : Option ℕ)
    → HeapKeeps z g h
    → y ≢ z
    → Queued g y n filled entry
    → Queued h y n filled entry
Queued-keeps z y n g h true (some a) k d q = k a y n d q.0 q.1
Queued-keeps z y n g h true none k d q = q
Queued-keeps z y n g h false (some a) k d q = q
Queued-keeps z y n g h false none k d q = q

pub Queued-open : (h : Heap) (z n : ℕ) (entry : Option ℕ) → Queued h z n false entry → entry ≡ none
Queued-open h z n (some a) q = absurd q
Queued-open h z n none q = refl

pub InPool-lt :
    (p : PolicyChunk) (ptr : ℕ)
    → ((z : ℕ) (pz : PoolZone) → get_elem? p.zone_pool z ≡ some pz → ZonePlaced p z pz)
    → InPool p ptr
    → ptr_chunk ptr < p.max_zone_chunks
InPool-lt p ptr placed o =
    let s = (placed (ptr_zone ptr) o.zone o.zone_found).size in
    omega (arith, s, get_elem?-lt o.zone.chunks (ptr_chunk ptr) o.chunk_found)

-- A step that changes one zone of the pool.
pub record Step (p q : PolicyChunk) (z : ℕ) (old new : PoolZone) : Type 0 where
  pub found : get_elem? p.zone_pool z ≡ some old
  pub pool : q.zone_pool ≡ set p.zone_pool z new
  pub same_max : q.max_zone_chunks ≡ p.max_zone_chunks
  pub same_size : length new.chunks ≡ length old.chunks
  pub others :
      (y c : ℕ)
      → y ≢ z
      → c < p.max_zone_chunks
      → occ (chunk_ptr y c) (order_of q) ≡ occ (chunk_ptr y c) (order_of p)
  pub keys : (ptr : ℕ) → p.chunk_keys ptr ≡ true → q.chunk_keys ptr ≡ true
  pub heaps : HeapKeeps z p.invalid_pqueue q.invalid_pqueue
  pub listed :
      (ptr : ℕ)
      → 0 < occ ptr (order_of q)
      → 0 < occ ptr (order_of p) + (if ptr_zone ptr == z then 1 else 0)
  pub inside :
      (ptr : ℕ) → 0 < occ ptr (order_of q) → ptr_zone ptr ≡ z → ptr_chunk ptr < p.max_zone_chunks

module _ (p q : PolicyChunk) (z : ℕ) (old new : PoolZone) (v : Inv p) (s : Step p q z old new) where
  pool_after :
      (y : ℕ) → get_elem? q.zone_pool y ≡ (if z == y then some new else get_elem? p.zone_pool y)
  pool_after y =
      let e = s.pool in
      rw e (get_elem?-set p.zone_pool z y new (get_elem?-lt p.zone_pool z s.found))

  placed-others :
      (y : ℕ) (pz : PoolZone) → y ≢ z → get_elem? p.zone_pool y ≡ some pz → ZonePlaced q y pz
  placed-others y pz d found =
      let o = v.placed y pz found in
      record {
        size = ground (arith, o.size, s.same_max);
        counted = o.counted;
        at_place = o.at_place;
        in_lru = λ c zp e.
            let l = get_elem?-lt pz.chunks c e in
            ground (arith, s.others y c d, o.in_lru c zp e, o.size, l);
        key = λ c h. s.keys (chunk_ptr y c) (o.key c (ground (arith, h, s.same_max)));
        queued =
            Queued-keeps z y pz.chunks_in_use p.invalid_pqueue q.invalid_pqueue pz.filled
              pz.pqueue_entry s.heaps d o.queued;
      }

  -- A step keeps the invariant if it keeps that of its zone.
  pub Step-Inv : Lru.Inv (lru_of q) → IsValid q.invalid_pqueue → ZonePlaced q z new → Inv q
  Step-Inv l h w = record {
    lru = l;
    heap = h;
    placed = λ y pz e. elim (ℕ_discrete z y) [
      | yes same ↦ let f : new ≡ pz = ground (arith, pool_after y, same, e) in rw (same, f) at w
      | no d ↦ placed-others y pz (λ h. d (sym h)) (ground (arith, pool_after y, d, e))
    ];
    in_pool = λ ptr o. elim (ℕ_discrete z (ptr_zone ptr)) [
      | yes same ↦
          let i : ptr_chunk ptr < length new.chunks =
            ground (arith, s.inside ptr o, same, w.size, s.same_max) in
          let (chunk, there) = get_elem?-some new.chunks (ptr_chunk ptr) i in
          record {
            zone = new;
            chunk = chunk;
            zone_found = ground (arith, pool_after (ptr_zone ptr), same);
            chunk_found = there;
          }
      | no d ↦
          let before = v.in_pool ptr (ground (arith, s.listed ptr o, d)) in
          record {
            zone = before.zone;
            chunk = before.chunk;
            zone_found = ground (arith, pool_after (ptr_zone ptr), d, before.zone_found);
            chunk_found = before.chunk_found;
          }
    ];
    max_pos = ground (arith, v.max_pos, s.same_max);
    max_small = ground (arith, v.max_small, s.same_max);
  }
