-- ===== src/Zsm/Move.antt =====
-- Every operation of the zone state manager moves one zone between the queues, the clients and
-- the full zones. The invariant survives such a move if it holds of the zone that moves.
use znworkload.Prelude.{
  ℕ, ◌+◌, ◌≤◌, ◌≡◌, ◌≢◌, List, some, arith, length, get_elem?, set, get_elem?-set, get_elem?-lt,
  count, occ, length-set, ℕ_discrete,
}
use znworkload.Backend.{Pair}
use znworkload.Zsm.{Zsm, Zone, is_free}
use znworkload.Zsm.Invariant.{Inv, ZoneOk, AllHeld, held_zones}

module _ (s : Zsm) (held : List Pair) (v : Inv s held) (i : ℕ) {z : Zone}
    (found : get_elem? s.zones i ≡ some z) (active free : List ℕ) (z' : Zone) (writes : ℕ)
    (held' : List Pair) where
  -- The state in which zone `i` is `z'` and the queues are the given ones.
  abbrev pub moved : Zsm
  moved = record s {
    active_queue = active;
    free_queue = free;
    zones = set s.zones i z';
    writes_occurring = writes;
  }

  -- No other zone changes its queue.
  pub record Elsewhere : Type 0 where
    pub same_active : (j : ℕ) → j ≢ i → occ j active ≡ occ j s.active_queue
    pub same_free : (j : ℕ) → j ≢ i → occ j free ≡ occ j s.free_queue
    pub same_held : (j : ℕ) → j ≢ i → occ j (held_zones held') ≡ occ j (held_zones held)

  size : length (set s.zones i z') ≡ length s.zones
  size = length-set s.zones i z'

  ZoneOk-moved :
      Elsewhere
      → ZoneOk moved held' i z'
      → (j : ℕ) (y : Zone) → get_elem? (set s.zones i z') j ≡ some y
      → ZoneOk moved held' j y
  ZoneOk-moved other here j y e = elim (ℕ_discrete i j) [
    | yes same ↦ ground (arith, get_elem?-set s.zones i j z' (get_elem?-lt s.zones i found), here)
    | no differ ↦ ground (
      arith,
      get_elem?-set s.zones i j z' (get_elem?-lt s.zones i found),
      v.zone_ok j y,
      other.same_active j,
      other.same_free j,
      other.same_held j,
    )
  ]

  pub moved-Inv :
      Elsewhere
      → ZoneOk moved held' i z'
      → AllHeld (set s.zones i z') s.max_zone_chunks held'
      → writes ≡ length held'
      → length active + length held' ≤ s.max_nr_active_zones
      → length free ≤ count (λ y. is_free y.state) (set s.zones i z')
      → Inv moved held'
  moved-Inv other here all w limit enough =
      let lt = get_elem?-lt s.zones i found in
      record {
        sizes = record {
          zones_length = omega (arith, size, v.sizes.zones_length);
          zones_small = v.sizes.zones_small;
          max_pos = v.sizes.max_pos;
          max_small = v.sizes.max_small;
          chunks_pos = v.sizes.chunks_pos;
          chunks_small = v.sizes.chunks_small;
        };
        zone_ok = ZoneOk-moved other here;
        active_inside = λ j h. elim (ℕ_discrete j i) [
          | yes e ↦ ground (arith, size)
          | no n ↦ omega (arith, size, v.active_inside j, other.same_active j n)
        ];
        free_inside = λ j h. elim (ℕ_discrete j i) [
          | yes e ↦ ground (arith, size)
          | no n ↦ omega (arith, size, v.free_inside j, other.same_free j n)
        ];
        all_held = all;
        writers = w;
        limit = limit;
        free_count = enough;
      }
