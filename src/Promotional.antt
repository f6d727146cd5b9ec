-- ===== src/Promotional.antt =====
-- include/eviction_policy_promotional.h and src/eviction/promotional.c: zones in least recently
-- used order. A GList link is a number, fresh for each push; `lru_queue` is the list of links with
-- their data, the head first. `zone_to_lru_map` gives `none` where g_hash_table_lookup gives NULL.
-- Each function runs under `policy_mutex`, so it is one step.
pub mod Lru
pub mod Refines
pub mod Recency
mod Tests
use znworkload.Prelude.{
  ℕ, suc, ◌+◌, Bool, true, false, ◌&&◌, Option, some, none, List, [], ◌∷◌, ◌++◌, ◌==◌,
  if◌then◌else◌, u32, minus_one, length, map,
}
use znworkload.Run.{Run, ok, crash, ◌>>=◌, deref, pop_head}
use znworkload.Backend.{Pair}

-- enum zn_io_type
pub data IoType : Type 0 where
  read write : IoType

-- A GList node of the queue.
pub record Link : Type 0 where
  pub address : ℕ
  pub payload : ℕ

-- struct zn_policy_promotional, without its mutex and the unused pointer to the cache
pub record Policy : Type 0 where
  pub lru_queue : List Link
  pub zone_to_lru_map : ℕ → Option ℕ
  pub zone_max_chunks : ℕ
  pub next_link : ℕ

abbrev pub set_key : (ℕ → Option ℕ) → ℕ → Option ℕ → ℕ → Option ℕ
set_key m k v j = if k == j then v else m j

-- The data of the link at an address, and g_queue_delete_link of it; neither is defined for a
-- pointer to no link of the queue.
unfoldable pub link_data : ℕ → List Link → Run ℕ
link_data l [] = crash
link_data l (n ∷ ns) = if n.address == l then ok n.payload else link_data l ns

unfoldable pub delete_link : ℕ → List Link → List Link
delete_link l [] = []
delete_link l (n ∷ ns) = if n.address == l then ns else n ∷ delete_link l ns

-- g_queue_push_tail, g_queue_peek_tail_link and the insertion of the new link in the map
abbrev pub push_zone : Policy → ℕ → ℕ → Policy
push_zone p zone payload = record p {
  lru_queue = p.lru_queue ++ record { address = p.next_link; payload = payload } ∷ [];
  zone_to_lru_map = set_key p.zone_to_lru_map zone (some p.next_link);
  next_link = p.next_link + 1;
}

abbrev is_write : IoType → Bool
is_write write = true
is_write read = false

-- The branch of zn_policy_promotional_update for a read.
unfoldable pub promote : Policy → ℕ → Option ℕ → Run Policy
promote p zone none = ok p
promote p zone (some node) = do
  payload ← link_data node p.lru_queue
  ok (push_zone (record p { lru_queue = delete_link node p.lru_queue }) zone payload)

-- zn_policy_promotional_update
unfoldable pub promotional_update : Policy → Pair → IoType → Run Policy
promotional_update p location io =
    if is_write io && location.chunk_offset == u32 (p.zone_max_chunks + 4294967295)
    then ok (push_zone p location.zone location.zone)
    else if is_write io
    then ok p
    else promote p location.zone (p.zone_to_lru_map location.zone)

-- zn_policy_promotional_get_zone_to_evict
unfoldable pub get_zone_to_evict : Policy → Run (Policy × ℕ)
get_zone_to_evict p = if u32 (length p.lru_queue) == 0 then ok (p, minus_one) else do
  (n, rest) ← pop_head p.lru_queue
  ok (
    record p { lru_queue = rest; zone_to_lru_map = set_key p.zone_to_lru_map n.payload none },
    n.payload,
  )

-- The promotional case of zn_evict_policy_init
unfoldable pub promotional_init : ℕ → Policy
promotional_init max_zone_chunks = record {
  lru_queue = [];
  zone_to_lru_map = λ _. none;
  zone_max_chunks = u32 max_zone_chunks;
  next_link = 0;
}
