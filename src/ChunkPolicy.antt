-- ===== src/ChunkPolicy.antt =====
-- include/eviction_policy_chunk.h and src/eviction/chunk.c: chunks in least recently used order.
-- A pointer to `zone_pool[z].chunks[c]` is the number `chunk_ptr z c`, and a pointer to `zone_pool[z]`
-- is `z`. `chunk_to_lru_map` gives `none` where g_hash_table_lookup gives NULL, and `chunk_keys` says
-- which keys the table has. zn_policy_chunk_update and zn_policy_chunk_evict hold `policy_mutex`
-- from start to end, so each is one step of the policy.
pub mod Invariant
pub mod Update
pub mod Written
pub mod Access
pub mod Tests
use znworkload.Prelude.{
  ℕ, zero, suc, ◌+◌, ◌*◌, ◌/◌, ◌%◌, Bool, true, false, not, ◌&&◌, ◌||◌, Option, some, none, List,
  [], ◌∷◌, ◌++◌, ◌==◌, ltb, if◌then◌else◌, u32, u64, minus_one, length, get_elem?, set,
}
use znworkload.Run.{Run, ok, crash, ◌>>=◌, ◌>>◌, assert, deref, pop_head}
use znworkload.Backend.{Pair}
use znworkload.Minheap.{Heap, insert, update_by_entry}
use znworkload.Promotional.{IoType, read, write, Link, link_data, delete_link, set_key}

-- struct eviction_policy_chunk_zone
pub record PoolZone : Type 0 where
  pub zone_id : ℕ
  pub chunks : List Pair
  pub chunks_in_use : ℕ
  pub filled : Bool
  pub pqueue_entry : Option ℕ

-- struct zn_policy_chunk, without its mutex and the unused `chunk_buf`; of `cache`, whose parts
-- are arguments where they are used, `max_zone_chunks` is kept here.
pub record PolicyChunk : Type 0 where
  pub lru_queue : List Link
  pub chunk_to_lru_map : ℕ → Option ℕ
  pub chunk_keys : ℕ → Bool
  pub invalid_pqueue : Heap
  pub zone_pool : List PoolZone
  pub total_chunks : ℕ
  pub max_zone_chunks : ℕ
  pub next_link : ℕ

-- `&zone_pool[z].chunks[c]`, with the 32-bit index `c`
abbrev pub chunk_ptr : ℕ → ℕ → ℕ
chunk_ptr z c = z * 4294967296 + c

abbrev pub ptr_zone : ℕ → ℕ
ptr_zone ptr = ptr / 4294967296

abbrev pub ptr_chunk : ℕ → ℕ
ptr_chunk ptr = ptr % 4294967296

abbrev pub pool_at : PolicyChunk → ℕ → Run PoolZone
pool_at p z = deref (get_elem? p.zone_pool z)

abbrev pub chunk_at : PoolZone → ℕ → Run Pair
chunk_at pz c = deref (get_elem? pz.chunks c)

abbrev pub set_pool : PolicyChunk → ℕ → PoolZone → PolicyChunk
set_pool p z pz = record p { zone_pool = set p.zone_pool z pz }

-- g_queue_push_tail, g_queue_peek_tail_link and the insertion of the new link in the table
abbrev pub push_chunk : PolicyChunk → ℕ → ℕ → PolicyChunk
push_chunk p ptr payload = record p {
  lru_queue = p.lru_queue ++ record { address = p.next_link; payload = payload } ∷ [];
  chunk_to_lru_map = set_key p.chunk_to_lru_map ptr (some p.next_link);
  chunk_keys = λ k. ptr == k || p.chunk_keys k;
  next_link = p.next_link + 1;
}

-- The end of a write: a zone whose last chunk is written joins the priority queue.
unfoldable pub fill_zone : PolicyChunk → Pair → PoolZone → Run PolicyChunk
fill_zone p location pz =
    if location.chunk_offset == u64 (p.max_zone_chunks + 18446744073709551615)
    then (do
      (heap, entry) ← insert p.invalid_pqueue location.zone pz.chunks_in_use
      ok (
          set_pool (record p { invalid_pqueue = heap }) location.zone
            (record pz { pqueue_entry = some entry; filled = true })))
    else ok p

-- The branch of zn_policy_chunk_update for a write, at `zone_pool[location.zone]` and its chunk.
unfoldable pub chunk_written : PolicyChunk → Pair → PoolZone → Pair → Run PolicyChunk
unfolding fill_zone
chunk_written p location zpc zp = do
  assert (not zp.in_use)
  let zp' : Pair = record {
    zone = location.zone;
    chunk_offset = location.chunk_offset;
    id = location.id;
    in_use = true;
  }
  let zpc' = record zpc {
    chunks = set zpc.chunks location.chunk_offset zp';
    chunks_in_use = u32 (zpc.chunks_in_use + 1);
    zone_id = location.zone;
  }
  let ptr = chunk_ptr location.zone location.chunk_offset
  fill_zone (push_chunk (set_pool p location.zone zpc') ptr ptr) location zpc'

-- The branch for a read, at the chunk's node.
unfoldable pub chunk_read : PolicyChunk → ℕ → Option ℕ → Run PolicyChunk
chunk_read p ptr none = ok p
chunk_read p ptr (some node) = do
  payload ← link_data node p.lru_queue
  ok (push_chunk (record p { lru_queue = delete_link node p.lru_queue }) ptr payload)

-- zn_policy_chunk_update
unfoldable pub chunk_update : PolicyChunk → Pair → IoType → Run PolicyChunk
unfolding chunk_written chunk_read
chunk_update p location io = do
  zpc ← pool_at p location.zone
  zp ← chunk_at zpc location.chunk_offset
  let ptr = chunk_ptr location.zone location.chunk_offset
  assert (p.chunk_keys ptr)
  elim io [
    | write ↦ chunk_written p location zpc zp
    | read ↦ chunk_read p ptr (p.chunk_to_lru_map ptr)
  ]
