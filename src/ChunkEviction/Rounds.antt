-- ===== src/ChunkEviction/Rounds.antt =====
-- The loop of zn_policy_chunk_evict, round by round.
use znworkload.Prelude.{
  ℕ, zero, suc, ◌<◌, ◌≤◌, ◌≡◌, refl, ap, sym, subst, ◌∙◌, List, [], ◌∷◌, arith, length, ℕ_discrete,
}
use znworkload.Run.{pop_head, Returns, Returns-bind, Returns-map, ◌>>=◌}
use znworkload.Backend.{Pair}
use znworkload.Zsm.{mark_chunk_invalid}
use znworkload.Zsm.Evict.{Marked, mark_chunk_invalid-Marked}
use znworkload.Cachemap.{cachemap_clear_chunk}
use znworkload.Cachemap.ClearChunk.{ChunkCleared, cachemap_clear_chunk-ChunkCleared}
use znworkload.Minheap.{update_by_entry}
use znworkload.Promotional.{Link}
use znworkload.Promotional.Lru
use znworkload.ChunkPolicy.{PoolZone, ptr_zone}
use znworkload.ChunkPolicy.Invariant.{InPool}
use znworkload.ChunkEviction.Requeue.{Requeued, update_by_entry-Requeued}
use znworkload.ChunkEviction.Round.{home, freed, place, placed, zone_there, chunk_there}
use znworkload.ChunkEviction.Evicted.{Ready, chunk_order, ChunksGone, info, after-Ready, after-Gone}
use znworkload.ChunkEviction.{ChunkCache, evict_link, evict_chunk, evict_chunks}

module _ (held : List Pair) where
  -- A round leaves the parts as they have to be, with one chunk less.
  abbrev Rounded : ChunkCache → ChunkCache → Type 0
  Rounded c d = Ready held d × (ptr : ℕ) × ChunksGone c (ptr ∷ []) d

  module _ (c : ChunkCache) (n : Link) (rest : List Link) (queue : c.policy.lru_queue ≡ n ∷ rest)
      (v : Ready held c) where
    abbrev h : InPool c.policy n.payload
    h = home c.policy v.policy_ok n rest queue

    abbrev f : PoolZone
    f = freed c.policy v.policy_ok n rest queue

    clears :
        Returns
          (ChunkCleared c.cache_map (info held c v n rest queue).id h.chunk)
          (cachemap_clear_chunk c.cache_map h.chunk)
    clears =
        let i = info held c v n rest queue in
        let (at_zone, at_chunk) = place c.policy v.policy_ok n rest queue in
        cachemap_clear_chunk-ChunkCleared c.cache_map v.map_ok i.id h.chunk
          (ground (arith, at_zone, i.in_map)) (ground (arith, at_zone, at_chunk, i.listed))

    evict_link-Rounded : Returns (Rounded c) (evict_link c n rest)
    unfolding evict_link
    evict_link-Rounded =
        let p = c.policy in
        let (at_zone, at_chunk) = place p v.policy_ok n rest queue in
        let w = placed p v.policy_ok n rest queue in
        let i = info held c v n rest queue in
        let (zone, found, marked) =
          mark_chunk_invalid-Marked c.zone_state held h.chunk v.zones_ok
            (ground (arith, at_zone, i.in_zones)) in
        let zone_found = zone_there p v.policy_ok n rest queue in
        let chunk_found = chunk_there p v.policy_ok n rest queue in
        rw (h.zone_found, h.chunk_found, zone_found, chunk_found)
          (Returns-bind
            (λ r.
              Requeued p.invalid_pqueue (ptr_zone n.payload) f.chunks_in_use h.zone.filled
                h.zone.pqueue_entry r.0)
            (Rounded c) _ (update_by_entry p.invalid_pqueue h.zone.pqueue_entry f.chunks_in_use)
            (update_by_entry-Requeued p.invalid_pqueue (ptr_zone n.payload) h.zone.chunks_in_use
              f.chunks_in_use h.zone.filled h.zone.pqueue_entry v.policy_ok.heap w.queued)
            λ (g, _) r.
              Returns-bind (Marked c.zone_state held h.chunk zone) (Rounded c) _
                (mark_chunk_invalid c.zone_state h.chunk) marked
                λ t k.
                  Returns-bind (ChunkCleared c.cache_map i.id h.chunk) (Rounded c) _
                    (cachemap_clear_chunk c.cache_map h.chunk) clears
                    λ m cl.
                      let (t_ok, t_is) = k in
                      let same_num : t.num_zones ≡ c.zone_state.num_zones =
                        ap (λ x. x.num_zones) t_is in
                      let same_free : t.free_queue ≡ c.zone_state.free_queue =
                        ap (λ x. x.free_queue) t_is in
                      let same_active : t.active_queue ≡ c.zone_state.active_queue =
                        ap (λ x. x.active_queue) t_is in
                      (
                        after-Ready held c v n rest queue g r t t_ok same_num same_free same_active
                            m cl,
                        n.payload,
                        after-Gone held c v n rest queue g r t t_ok same_num same_free same_active m
                            cl,
                      ))

  evict_chunk-Rounded :
      (c : ChunkCache)
      → 0 < length (chunk_order c)
      → Ready held c
      → Returns (Rounded c) (evict_chunk c)
  unfolding evict_chunk
  evict_chunk-Rounded c l v = by_queue c.policy.lru_queue refl l
    where
      by_queue :
          (q : List Link)
          → c.policy.lru_queue ≡ q
          → 0 < length (Lru.order q)
          → Returns (Rounded c) (evict_chunk c)
      by_queue [] e l = absurd (omega arith)
      by_queue (n ∷ rest) e l =
          let step : evict_chunk c ≡ evict_link c n rest =
            ap (λ q. pop_head q >>= λ (m, ms). evict_link c m ms) e in
          subst (Returns (Rounded c)) (sym step) (evict_link-Rounded c n rest e v)

none-Gone : (c : ChunkCache) → ChunksGone c [] c
none-Gone c = record {
  order = refl;
  absent = λ id p e. (e, λ a. omega (arith, a.1));
  kept = λ id p e a. e;
  same_free = refl;
  same_active = refl;
}

Gone-next :
    (c d e : ChunkCache) (ptr : ℕ) (gone : List ℕ)
    → ChunksGone c (ptr ∷ []) d
    → ChunksGone d gone e
    → ChunksGone c (ptr ∷ gone) e
Gone-next c d e ptr gone f g = record {
  order = f.order ∙ ap (◌∷◌ ptr) g.order;
  absent = λ id p h.
      let (mid, not_later) = g.absent id p h in
      let (old, not_first) = f.absent id p mid in
      (
        old,
        λ (k, o, y, x). elim (ℕ_discrete ptr k) [
          | yes same ↦ not_first (k, ground (arith, same), y, x)
          | no d ↦ not_later (k, ground (arith, o, d), y, x)
        ],
      );
  kept = λ id p h a.
      let mid = f.kept id p h (λ (k, o, y, x). a (k, ground (arith, o), y, x)) in
      g.kept id p mid (λ (k, o, y, x). a (k, ground (arith, o), y, x));
  same_free = g.same_free ∙ f.same_free;
  same_active = g.same_active ∙ f.same_active;
}

abbrev pub Evicted : List Pair → ℕ → ChunkCache → ChunkCache → Type 0
Evicted held k c d = Ready held d × (gone : List ℕ) × (length gone ≡ k) × ChunksGone c gone d

pub evict_chunks-Evicted :
    (held : List Pair) (k : ℕ) (c : ChunkCache)
    → k ≤ length (chunk_order c)
    → Ready held c
    → Returns (Evicted held k c) (evict_chunks k c)
unfolding evict_chunks
evict_chunks-Evicted held zero c l v = (v, [], refl, none-Gone c)
evict_chunks-Evicted held (suc k) c l v =
    Returns-bind (Rounded held c) (Evicted held (suc k) c) _ (evict_chunk c)
      (evict_chunk-Rounded held c (omega arith) v)
      λ d r.
        let shorter : length (chunk_order c) ≡ suc (length (chunk_order d)) = ap length r.2.order in
        Returns-map (Evicted held k d) (Evicted held (suc k) c) (evict_chunks k d)
          (evict_chunks-Evicted held k d (omega (arith, l, shorter)) r.0)
          λ e s. (s.0, r.1 ∷ s.1, ap suc s.2, Gone-next c d e r.1 s.1 r.2 s.3)
