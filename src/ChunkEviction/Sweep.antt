-- ===== src/ChunkEviction/Sweep.antt =====
-- zn_policy_chunk_evict while enough zones are free, so that the garbage collection returns at once.
use znworkload.Prelude.{
  ℕ, suc, ◌+◌, ◌-◌, ◌<◌, ◌≤◌, ◌≡◌, ◌^◌, ◌⊎◌, inl, inr, refl, ap, ◌∙◌, Bool, true, false, List, [],
  ◌∷◌, ◌||◌, ◌==◌, ltb, arith, length, length-append, u32, ℕ_discrete, Bool-cases,
}
use znworkload.Run.{ok, Returns, Returns-bind}
use znworkload.Backend.{Pair}
use znworkload.Disk.{Posix}
use znworkload.Zsm.{Zbd, get_num_free_zones}
use znworkload.Promotional.{Link}
use znworkload.Promotional.Lru
use znworkload.ChunkEviction.Evicted.{Ready, chunk_order}
use znworkload.ChunkEviction.Rounds.{Evicted, evict_chunks-Evicted}
use znworkload.ChunkEviction.{ChunkCache, evict_chunks, free_chunks, chunk_gc, chunk_evict}

length-order : (q : List Link) → length (Lru.order q) ≡ length q
length-order [] = refl
length-order (n ∷ q) = ap suc (length-order q)

-- The pool's chunks that are not in the queue.
abbrev pub spare : ChunkCache → ℕ
spare c = c.policy.total_chunks - length (chunk_order c)

-- How a call ends: there was nothing to do, or chunks were evicted until twelve are spare.
abbrev pub Swept :
    {World : Type 0} → List Pair → ChunkCache → World → ChunkCache × World × ℕ → Type 0
Swept held c w (d, w', code) =
    (w' ≡ w)
    × (((code ≡ 1) × (d ≡ c) × ((chunk_order c ≡ []) ⊎ (6 < spare c)))
        ⊎ ((code ≡ 0)
            × (spare c ≤ 6)
            × Evicted held (12 - spare c) c d
            × (length (chunk_order d) + 12 ≡ c.policy.total_chunks)))

module _ {World : Type 0} (posix : Posix World) (zbd : Zbd) (fuel : ℕ) where
  chunk_gc-idle :
      (c : ChunkCache) (w : World)
      → 2 < get_num_free_zones c.zone_state
      → chunk_gc posix zbd fuel c w ≡ ok (c, w)
  unfolding chunk_gc
  chunk_gc-idle c w h = ground arith

  module _ (held : List Pair) (c : ChunkCache) (w : World) (v : Ready held c)
      (fits : length (chunk_order c) ≤ c.policy.total_chunks) (enough : 12 ≤ c.policy.total_chunks)
      (small : c.policy.total_chunks < 2 ^ 32) where
    free_chunks-spare : free_chunks c.policy ≡ spare c
    free_chunks-spare = let l = length-order c.policy.lru_queue in ground (arith, l, fits, small)

    -- The early return's test, on numbers without a bound.
    abbrev idle : Bool
    idle = length (chunk_order c) == 0 || ltb 6 (spare c)

    idle-test : (u32 (length c.policy.lru_queue) == 0 || ltb 6 (free_chunks c.policy)) ≡ idle
    idle-test =
        let l = length-order c.policy.lru_queue in
        rw free_chunks-spare (ground (arith, l, fits, small))

    no_order : (q : List ℕ) → length q ≡ 0 → q ≡ []
    no_order [] e = refl
    no_order (i ∷ q) e = absurd (omega (arith, e))

    chunk_evict-idle : idle ≡ true → Returns (Swept held c w) (chunk_evict posix zbd fuel c w)
    unfolding chunk_evict
    chunk_evict-idle e =
        rw (idle-test, e)
          (
            refl,
            inl (
              refl,
              refl,
              elim (ℕ_discrete (length (chunk_order c)) 0) [
                | yes none_left ↦ inl (no_order (chunk_order c) none_left)
                | no d ↦ inr (ground (arith, e, d))
              ],
            ),
          )

    chunk_evict-busy :
        2 < get_num_free_zones c.zone_state
        → idle ≡ false
        → Returns (Swept held c w) (chunk_evict posix zbd fuel c w)
    unfolding chunk_evict get_num_free_zones
    chunk_evict-busy h e =
        let nr : u32 (12 + 4294967296 - free_chunks c.policy) ≡ 12 - spare c =
          rw free_chunks-spare (ground (arith, e)) in
        rw (idle-test, e, nr)
          (Returns-bind (Evicted held (12 - spare c) c) (Swept held c w) _
            (evict_chunks (12 - spare c) c)
            (evict_chunks-Evicted held (12 - spare c) c (ground (arith, e, enough)) v)
            λ d r.
              let (_, gone, number, g) = r in
              let f : u32 (length d.zone_state.free_queue) ≡ u32 (length c.zone_state.free_queue) =
                ap (λ q. u32 (length q)) g.same_free in
              let l : length (chunk_order c) ≡ length gone + length (chunk_order d) =
                ap length g.order ∙ length-append gone (chunk_order d) in
              let still : 2 < get_num_free_zones d.zone_state = omega (arith, f, h) in
              let room : spare c ≤ 6 = ground (arith, e) in
              rw (chunk_gc-idle d w still)
                (refl, inr (refl, room, r, omega (arith, l, number, room, fits, enough))))

    -- If the chunk policy, the cache map and the zone state manager have their invariants, each
    -- chunk of the queue is one that the map has an ID at, the queue is no longer than the number
    -- of chunks, which is at least twelve and below 2^32, and more than two zones are free, then
    -- zn_policy_chunk_evict returns. If the queue is empty or more than six chunks are not in it,
    -- it returns 1 and changes nothing. Otherwise it returns 0, all this holds of the parts again,
    -- and exactly twelve chunks are not in the queue: the least recently used chunks have left it
    -- in their order, the map has lost the IDs that lay in them and no others, and the queues of
    -- the zone state manager are the same.
    pub chunk_evict-Swept :
        2 < get_num_free_zones c.zone_state
        → Returns (Swept held c w) (chunk_evict posix zbd fuel c w)
    chunk_evict-Swept h = elim (Bool-cases idle) [
      | inl e ↦ chunk_evict-idle e
      | inr e ↦ chunk_evict-busy h e
    ]
