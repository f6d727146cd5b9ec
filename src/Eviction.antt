-- ===== src/Eviction.antt =====
-- zn_fg_evict of src/cache.c with the promotional policy: it composes the policy, the cache map and
-- the zone state manager. It is modelled without other threads, so a wait for readers of a zone
-- that has some never ends; that is a crash.
pub mod Foreground
mod Tests
use znworkload.Prelude.{
  ℕ, zero, suc, ◌+◌, ◌-◌, Bool, true, false, ltb, ◌&&◌, ◌==◌, if◌then◌else◌, u32, minus_one,
}
use znworkload.Run.{Run, ok, crash, ◌>>=◌, ◌>>◌, assert}
use znworkload.Zsm.{Zsm, Zbd, evict_zone, get_num_free_zones}
use znworkload.Cachemap.{Cachemap, cachemap_clear_zone}
use znworkload.Promotional.{Policy, get_zone_to_evict}

-- The parts of struct zn_cache that an eviction reads and changes.
pub record Cache : Type 0 where
  pub cache_map : Cachemap
  pub eviction_policy : Policy
  pub zone_state : Zsm

-- `n > 0` of a gint
abbrev pub positive : ℕ → Bool
positive n = ltb 0 n && ltb n 2147483648

-- `while (cache->active_readers[zone] > 0) g_thread_yield();`
abbrev pub wait_readers : Cachemap → ℕ → Run (Unit {0})
wait_readers m zone = if positive (m.active_readers zone) then crash else ok tt

-- One round of the loop of zn_fg_evict, and whether it goes on.
unfoldable pub evict_round : Zbd → Cache → Run (Cache × Bool)
evict_round zbd c = do
  (policy, zone) ← get_zone_to_evict c.eviction_policy
  if zone == minus_one then ok (record c { eviction_policy = policy }, false) else do
    m ← cachemap_clear_zone c.cache_map zone
    wait_readers m zone
    (t, ret) ← evict_zone zbd c.zone_state zone
    assert (ret == 0)
    ok (record { cache_map = m; eviction_policy = policy; zone_state = t }, true)

-- The loop, with the rounds left first.
unfoldable pub evict_loop : ℕ → Zbd → Cache → Run Cache
evict_loop zero zbd c = ok c
evict_loop (suc k) zbd c = do
  (d, more) ← evict_round zbd c
  if more then evict_loop k zbd d else ok d

-- The bound of the loop, EVICT_LOW_THRESH_ZONES - free_zones in uint32_t
abbrev pub to_evict : Zsm → ℕ
to_evict s = u32 (4 + 4294967296 - get_num_free_zones s)

-- zn_fg_evict with ZN_EVICT_PROMOTE_ZONE
unfoldable pub fg_evict : Zbd → Cache → Run Cache
unfolding evict_loop get_num_free_zones
fg_evict zbd c = evict_loop (to_evict c.zone_state) zbd c
