-- ===== src/Eviction/Foreground.antt =====
-- zn_fg_evict frees the least recently used full zones, in their order.
use znworkload.Prelude.{
  ℕ, zero, suc, ◌<◌, ◌≡◌, ◌≢◌, ◌⊎◌, inl, inr, refl, ap, sym, ◌∙◌, none, List, [], ◌∷◌, ◌++◌, some,
  arith, occ, length, get_elem?, get_elem?-lt, ◌≤◌, true, false, Bool, ◌^◌, ◌==◌, minus_one,
}
use znworkload.Run.{◌>>=◌, ◌>>◌, assert, Returns, Returns-bind, Returns-map, ok}
use znworkload.Backend.{Pair}
use znworkload.Zsm.{Zsm, Zbd, Zone, full, evict_zone, zone_start}
use znworkload.Zsm.Invariant
use znworkload.Zsm.Evict.{evict_zone-Evicted, Evicted, reset_code}
use znworkload.Cachemap.{Cachemap, cachemap_clear_zone}
use znworkload.Cachemap.View
use znworkload.Cachemap.Clear.{outside, ZoneCleared, cachemap_clear_zone-ZoneCleared}
use znworkload.Promotional.{Policy, Link, get_zone_to_evict}
use znworkload.Promotional.Lru
use znworkload.Promotional.Refines.{Evicts, get_zone_to_evict-Evicts}
use znworkload.Eviction.{Cache, wait_readers, evict_round, evict_loop, fg_evict, to_evict}

-- The zones that the policy may evict, least recently used first.
abbrev pub candidates : Cache → List ℕ
candidates c = Lru.order c.eviction_policy.lru_queue

-- A candidate is a full zone of the device that nobody reads.
pub record Candidate (c : Cache) (zone : ℕ) : Type 0 where
  pub at : Zone
  pub found : get_elem? c.zone_state.zones zone ≡ some at
  pub filled : at.state ≡ full
  pub mapped : zone < c.cache_map.num_zones
  pub unread : c.cache_map.active_readers zone ≡ 0

-- The parts keep their invariants, and the policy's zones are candidates.
pub record Ready (held : List Pair) (c : Cache) : Type 0 where
  pub zones_ok : Invariant.Inv c.zone_state held
  pub map_ok : View.Inv c.cache_map
  pub policy_ok : Lru.Inv c.eviction_policy
  pub candidate : (zone : ℕ) → 0 < occ zone (candidates c) → Candidate c zone
  pub small : length c.eviction_policy.lru_queue < 2 ^ 32

-- The zones `gone` have left the head of the candidates for the tail of the free queue, and nothing
-- in the map lies in them.
pub record Freed (c : Cache) (gone : List ℕ) (d : Cache) : Type 0 where
  pub order : candidates c ≡ gone ++ candidates d
  pub free : d.zone_state.free_queue ≡ c.zone_state.free_queue ++ gone
  pub absent :
      (id : ℕ) (p : Pair)
      → View.view d.cache_map id ≡ View.at p
      → (View.view c.cache_map id ≡ View.at p) × (occ p.zone gone ≡ 0)

pub order-length : (ns : List Link) → length (Lru.order ns) ≡ length ns
order-length [] = refl
order-length (n ∷ ns) = ap suc (order-length ns)

outside-at :
    (zone : ℕ) (s : View.State) (p : Pair)
    → outside zone s ≡ View.at p
    → (s ≡ View.at p) × (p.zone ≢ zone)
outside-at zone View.absent p e = cc
outside-at zone View.writing p e = cc
outside-at zone (View.at q) p e = ground (arith, e)

append-nil : (xs : List ℕ) → xs ++ [] ≡ xs
append-nil [] = refl
append-nil (x ∷ xs) = ap (◌∷◌ x) (append-nil xs)

append-cons : (xs : List ℕ) (z : ℕ) (ys : List ℕ) → (xs ++ z ∷ []) ++ ys ≡ xs ++ z ∷ ys
append-cons [] z ys = refl
append-cons (x ∷ xs) z ys = ap (◌∷◌ x) (append-cons xs z ys)

none-Freed : (c : Cache) → Freed c [] c
none-Freed c = record {
  order = refl;
  free = sym (append-nil c.zone_state.free_queue);
  absent = λ id p e. (e, refl);
}

Freed-next :
    (c d e : Cache) (z : ℕ) (gone : List ℕ)
    → Freed c (z ∷ []) d
    → Freed d gone e
    → Freed c (z ∷ gone) e
Freed-next c d e z gone f g = record {
  order = f.order ∙ ap (◌∷◌ z) g.order;
  free = g.free ∙ ap (λ q. q ++ gone) f.free ∙ append-cons c.zone_state.free_queue z gone;
  absent = λ id p h.
      let (old, n) = g.absent id p h in
      let (older, n1) = f.absent id p old in (older, omega (arith, n, n1));
}

module _ (zbd : Zbd) (held : List Pair)
    (resets : (fd wp len : ℕ) → zbd.reset_zones fd wp len ≡ 0) where
  abbrev Rounded : Cache → Cache × Bool → Type 0
  Rounded c (d, more) =
      Ready held d
      × (((more ≡ false) × (candidates d ≡ []) × Freed c [] d)
          ⊎ ((more ≡ true) × (z : ℕ) × Freed c (z ∷ []) d))

  module _ (c : Cache) (v : Ready held c) (q : Policy) (r : ℕ) (inv : Lru.Inv q)
      (split : candidates c ≡ r ∷ Lru.order q.lru_queue) (forgot : q.zone_to_lru_map r ≡ none) where
    head : Candidate c r
    head = v.candidate r (ground (arith, split))

    resets_head : reset_code zbd c.zone_state head.at ≡ 0
    resets_head =
        let wp = zone_start c.zone_state head.at in
        ground (arith, resets c.zone_state.fd wp c.zone_state.zone_cap)

    proper : (r == minus_one) ≡ false
    proper =
        let lt = get_elem?-lt c.zone_state.zones r head.found in
        let s = v.zones_ok.sizes in ground (arith, lt, s.zones_length, s.zones_small)

    distinct : (zone : ℕ) → 0 < occ zone (Lru.order q.lru_queue) → zone ≢ r
    distinct zone h same = ground (arith, h, same, inv.zones r, forgot)

    module _ (m : Cachemap) (h : ZoneCleared c.cache_map r m) (t : Zsm) (ret : ℕ)
        (g : Evicted c.zone_state held r head.at (t, ret)) where
      abbrev after : Cache
      after = record { cache_map = m; eviction_policy = q; zone_state = t }

      after-Ready : Ready held after
      after-Ready = record {
        zones_ok = g.0;
        map_ok = h.inv;
        policy_ok = inv;
        candidate = λ zone o.
            let n = distinct zone o in
            let old = v.candidate zone (ground (arith, split, o)) in
            record {
              at = old.at;
              found = g.5 zone n ∙ old.found;
              filled = old.filled;
              mapped = ground (arith, old.mapped, h.same_num);
              unread = ground (arith, old.unread, h.readers);
            };
        small =
            let k = order-length c.eviction_policy.lru_queue in
            let l = order-length q.lru_queue in
            let e : length (candidates c) ≡ suc (length (Lru.order q.lru_queue)) =
              ap length split in
            omega (arith, k, l, e, v.small);
      }

      after-Freed : Freed c (r ∷ []) after
      after-Freed = record {
        order = split;
        free = g.2;
        absent = λ id p e.
            let (old, n) = outside-at r (View.view c.cache_map id) p (sym (h.seen id) ∙ e) in
            (old, ground (arith, n));
      }

    evicted-Rounded : Returns (Rounded c) (do
      m ← cachemap_clear_zone c.cache_map r
      wait_readers m r
      (t, ret) ← evict_zone zbd c.zone_state r
      assert (ret == 0)
      ok (record { cache_map = m; eviction_policy = q; zone_state = t }, true))
    evicted-Rounded =
        Returns-bind (ZoneCleared c.cache_map r) (Rounded c) _ (cachemap_clear_zone c.cache_map r)
          (cachemap_clear_zone-ZoneCleared c.cache_map r v.map_ok head.mapped)
          λ m h.
            let quiet : m.active_readers r ≡ 0 = ground (arith, head.unread, h.readers) in
            rw quiet (
              Returns-bind (Evicted c.zone_state held r head.at) (Rounded c) _
                (evict_zone zbd c.zone_state r)
                (evict_zone-Evicted zbd c.zone_state held r head.at v.zones_ok head.found
                  head.filled resets_head)
                λ (t, ret) g.
                  rw (g.1) (after-Ready m h t ret g, inr (refl, r, after-Freed m h t ret g)))

  none-Rounded : (c : Cache) → Ready held c → candidates c ≡ [] → Rounded c (c, false)
  none-Rounded c v e = (v, inl (refl, e, none-Freed c))

  evict_round-Rounded : (c : Cache) → Ready held c → Returns (Rounded c) (evict_round zbd c)
  unfolding evict_round
  evict_round-Rounded c v =
      Returns-bind (Evicts c.eviction_policy) (Rounded c) _ (get_zone_to_evict c.eviction_policy)
        (get_zone_to_evict-Evicts c.eviction_policy v.policy_ok v.small)
        λ (q, r) g. elim g [
          | inl (none_left, last, same) ↦
              let e : q ≡ c.eviction_policy = same in rw (last, e) (none-Rounded c v none_left)
          | inr (inv, split, forgot) ↦
              let n = proper c v q r inv split forgot in
              rw n (evicted-Rounded c v q r inv split forgot)
        ]

  -- What a number of rounds leaves: as many zones freed, or no candidate left.
  abbrev pub Freeing : ℕ → Cache → Cache → Type 0
  Freeing k c d =
      Ready held d
      × (gone : List ℕ) × Freed c gone d
      × (length gone ≤ k)
      × ((length gone ≡ k) ⊎ (candidates d ≡ []))

  evict_loop-Freeing :
      (k : ℕ) (c : Cache) → Ready held c → Returns (Freeing k c) (evict_loop k zbd c)
  unfolding evict_loop
  evict_loop-Freeing zero c v = (v, [], none-Freed c, omega arith, inl refl)
  evict_loop-Freeing (suc k) c v =
      Returns-bind (Rounded c) (Freeing (suc k) c) _ (evict_round zbd c) (evict_round-Rounded c v)
        λ (d, more) g. elim g.1 [
          | inl (stop, no_more, f) ↦ rw stop (g.0, [], f, omega arith, inr no_more)
          | inr (on, z, f) ↦ rw on (
              Returns-map (Freeing k d) (Freeing (suc k) c) (evict_loop k zbd d)
                (evict_loop-Freeing k d g.0)
                λ e h. (
                  h.0,
                  z ∷ h.1,
                  Freed-next c d e z h.1 f h.2,
                  omega (arith, h.3),
                  (elim h.4 [ inl all ↦ inl (ap suc all) | inr no_more ↦ inr no_more ]),
                ))
        ]

  -- Without other threads, if the device resets every zone, the policy, the cache map and the zone
  -- state manager have their invariants, and the policy's zones are full zones of the device that
  -- nobody reads, then zn_fg_evict with the promotional policy returns and all this holds again.
  -- Some zones have moved from the head of the policy's list, in their order, to the tail of the
  -- free queue: as many as the bound of the loop says, or fewer, and then the list is empty. An ID
  -- that the map still has at a location was there before, outside these zones.
  pub fg_evict-Freeing :
      (c : Cache) → Ready held c → Returns (Freeing (to_evict c.zone_state) c) (fg_evict zbd c)
  unfolding fg_evict
  fg_evict-Freeing c v = evict_loop-Freeing (to_evict c.zone_state) c v
