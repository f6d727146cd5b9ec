-- ===== src/EvictTask.antt =====
-- evict_task of src/zncache.c, the eviction thread, with the promotional policy. What the workers do
-- between two rounds is left open; within a round the thread runs alone.
use znworkload.Prelude.{
  ℕ, ◌-◌, ◌<◌, ◌≤◌, ◌≡◌, ◌⊎◌, inl, inr, refl, Bool, true, false, arith, ltb, if◌then◌else◌, List,
  dec_lt,
}
use znworkload.Run.{Run, ok, ◌>>=◌, ◌>>◌, assert, Returns, Returns-bind}
use znworkload.Backend.{Pair}
use znworkload.Zsm.{Zbd, get_num_free_zones}
use znworkload.Eviction.{Cache, fg_evict, to_evict}
use znworkload.Eviction.Foreground

-- A round of the loop, with `*thread_data->done`: the cache after it, and whether the loop goes on.
unfoldable pub evict_task_round : Zbd → Bool → Cache → Run (Cache × Bool)
unfolding get_num_free_zones
evict_task_round zbd done c =
    let free_zones = get_num_free_zones c.zone_state in
    let evicted = assert (ltb 0 (to_evict c.zone_state)) >> fg_evict zbd c >>= λ d. ok (d, true) in
    if done then ok (c, false) else (if ltb 2 free_zones then ok (c, true) else evicted)

module _ (zbd : Zbd) (held : List Pair) (resets : (fd wp len : ℕ) → zbd.reset_zones fd wp len ≡ 0)
    (c : Cache) (v : Foreground.Ready held c) where
  -- The thread stops once the workers are done, and sleeps while more than two zones are free.
  -- Otherwise it frees zones until four are free or the policy has none left.
  abbrev pub TaskRound : Bool → Cache × Bool → Type 0
  TaskRound true (d, more) = (d ≡ c) × (more ≡ false)
  TaskRound false (d, more) =
      (more ≡ true)
      × (((2 < get_num_free_zones c.zone_state) × (d ≡ c))
          ⊎ ((get_num_free_zones c.zone_state ≤ 2)
              × Foreground.Freeing zbd held resets (4 - get_num_free_zones c.zone_state) c d))

  -- A round returns: its assertion that there is something to evict does not fail.
  pub evict_task_round-TaskRound :
      (done : Bool) → Returns (TaskRound done) (evict_task_round zbd done c)
  unfolding evict_task_round get_num_free_zones
  evict_task_round-TaskRound true = (refl, refl)
  evict_task_round-TaskRound false = elim (dec_lt 2 (get_num_free_zones c.zone_state)) [
    | yes enough ↦
        let e : ltb 2 (get_num_free_zones c.zone_state) ≡ true = ground (arith, enough) in
        rw e (refl, inl (enough, refl))
    | no few ↦
        let e : ltb 2 (get_num_free_zones c.zone_state) ≡ false = ground (arith, few) in
        let n : to_evict c.zone_state ≡ 4 - get_num_free_zones c.zone_state = omega (arith, few) in
        let some : ltb 0 (4 - get_num_free_zones c.zone_state) ≡ true = ground (arith, few) in
        let freeing = Foreground.fg_evict-Freeing zbd held resets c v in
        rw (e, n, some)
          (Returns-bind (Foreground.Freeing zbd held resets (to_evict c.zone_state) c)
            (TaskRound false) _ (fg_evict zbd c) freeing
            λ d f. (refl, inr (omega (arith, few), (rw n at f))))
  ]
