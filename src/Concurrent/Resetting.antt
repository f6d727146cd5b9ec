-- ===== src/Concurrent/Resetting.antt =====
-- An evictor resets its zone, among other threads.
use znworkload.Prelude.{
  ℕ, ◌<◌, ◌≡◌, ◌≢◌, refl, Option, some, arith, get_elem?, get_elem?-lt, get_elem?-set, set,
  ℕ_discrete, inl, inr, ◌⊎◌,
}
use znworkload.Run.{Returns}
use znworkload.Backend.{Pair}
use znworkload.Zsm.{Zsm, Zbd, full, zone_start}
use znworkload.Zsm.Evict.{reset_code, freed, freed-Inv, emptied, evict_zone-success}
use znworkload.Chunks.{Contents, reset_content}
use znworkload.Concurrent.{System, Pc, choosing, resetting, enter, evictor_step}
use znworkload.Concurrent.Places.{
  holds, cleared, publishes, resets, reads, full_zone, number, number-set, number-same, number-get,
}
use znworkload.Concurrent.Held.{held_of}
use znworkload.Concurrent.Invariant.{
  Inv, Clears, Tokens, FullZone, Stored, Alloc-same, Claims-same, enter-few,
}
use znworkload.Concurrent.Frame.{Data-set, Relies-keep}
use znworkload.Concurrent.Store.{held_ok}
use znworkload.Concurrent.Give.{Obeys}

module _ (s : System) (i : ℕ) (v : Inv s) (r : Option ℕ) (k z : ℕ)
    (here : get_elem? s.threads i ≡ some (resetting r k z)) where
  abbrev t : Pc
  t = choosing r k

  abbrev old : Pc
  old = resetting r k z

  abbrev max : ℕ
  max = s.zone_state.max_zone_chunks

  has_cleared : 0 < number cleared z s.threads
  has_cleared = number-get cleared z s.threads i old here (ground arith)

  has_reset : 0 < number resets z s.threads
  has_reset = number-get resets z s.threads i old here (ground arith)

  has_full : 0 < number (full_zone max) z s.threads
  has_full = number-get (full_zone max) z s.threads i old here (ground arith)

  full_here : FullZone s.zone_state.zones z
  full_here = v.tokens.full z (omega (arith, has_full))

  is_filled : full_here.zone.state ≡ full
  is_filled = ground (arith, full_here.filled)

  abbrev zs : Zsm
  zs = freed s.zone_state (held_of s.threads) v.alloc z full_here.zone full_here.there is_filled

  abbrev f : Contents
  f = reset_content s.contents s.zone_state.backend_type z

  elsewhere : (j : ℕ) → j ≢ z → get_elem? zs.zones j ≡ get_elem? s.zone_state.zones j
  elsewhere j n = ground (
    arith,
    n,
    get_elem?-set s.zone_state.zones z j
        (emptied s.zone_state (held_of s.threads) v.alloc z full_here.zone full_here.there
          is_filled)
        (get_elem?-lt s.zone_state.zones z full_here.there),
  )

  keeps : (p : Pair) (id : ℕ) → p.zone ≢ z → Stored s.contents s.zone_state p id → Stored f zs p id
  keeps p id n h = record {
    content = ground (arith, n, h.content);
    placed = record {
      zone = h.placed.zone;
      there = ground (arith, elsewhere p.zone n, h.placed.there);
      behind = h.placed.behind;
    };
    room = h.room;
  }

  reset-Tokens : Tokens s.eviction_policy zs (set s.threads i t)
  reset-Tokens =
      let a = λ (j : ℕ). number-set (full_zone max) j s.threads i t here in
      record {
        policy_ok = v.tokens.policy_ok;
        same_max = v.tokens.same_max;
        single = λ j. ground (arith, a j, v.tokens.single j);
        full = λ j h. elim (ℕ_discrete j z) [
          | yes same ↦ absurd (ground (arith, same, a z, h, v.tokens.single z))
          | no n ↦
              let g = v.tokens.full j (ground (arith, a j, h)) in
              record {
                zone = g.zone;
                there = ground (arith, elsewhere j n, g.there);
                filled = g.filled;
              }
        ];
      }

  reset-Clears : Clears s.cache_map (set s.threads i t)
  reset-Clears =
      let a = λ (j : ℕ). number-set cleared j s.threads i t here in
      let b = λ (j : ℕ). number-same publishes j s.threads i t here refl in
      let d = λ (j : ℕ). number-set resets j s.threads i t here in
      let g = λ (j : ℕ). number-same reads j s.threads i t here refl in
      record {
        vacant = λ j id p h. v.clears.vacant j id p (ground (arith, a j, h));
        unpublished = λ j h. rw (b j) (v.clears.unpublished j (ground (arith, a j, h)));
        quiet = λ j h. rw (g j) (v.clears.quiet j (ground (arith, d j, h)));
      }

  -- The zone that another thread holds a location of is not full, so it is another one.
  not_held :
      (j : ℕ) (u : Pc) (p : Pair) → get_elem? s.threads j ≡ some u → holds u ≡ some p → p.zone ≢ z
  not_held j u p e h same =
      let o = held_ok s j v p e h in ground (arith, o, full_here.there, full_here.filled, same)

  unread :
      (j : ℕ) (u : Pc) (p : Pair)
      → get_elem? s.threads j ≡ some u
      → ((reads u ≡ some p.zone) ⊎ (publishes u ≡ some p.zone))
      → p.zone ≢ z
  unread j u p e (inl h) same = ground (
    arith,
    v.clears.quiet z has_reset,
    number-get reads z s.threads j u e (ground (arith, h, same)),
  )
  unread j u p e (inr h) same = ground (
    arith,
    v.clears.unpublished z has_cleared,
    number-get publishes z s.threads j u e (ground (arith, h, same)),
  )

  reset-Inv : Inv (enter (record s { zone_state = zs; contents = f }) i t)
  reset-Inv = record {
    alloc = Alloc-same s.threads i old t here zs refl (
        freed-Inv s.zone_state (held_of s.threads) v.alloc z full_here.zone full_here.there
          is_filled);
    same_num = v.same_num;
    few = enter-few s.threads i old t here v.few;
    claims = Claims-same s.threads i old t here s.cache_map refl refl v.claims;
    tokens = reset-Tokens;
    chunks =
        Data-set s.cache_map s.cache_map s.contents f s.zone_state zs s.threads i old t here
          (λ id p e. keeps p id (v.clears.vacant z id p has_cleared e) (v.chunks.stored id p e))
          (λ j u n e.
            Relies-keep s.cache_map s.cache_map s.contents f s.zone_state zs u
              (λ id a p x y w. (y, w)) (λ p id x h. keeps p id (unread j u p e x) h)
              (λ p id x h. ground (arith, not_held j u p e x, h)) (λ h. h) refl)
          tt (v.chunks.small i old here) v.chunks;
    clears = reset-Clears;
  }

  pub resetting-Inv : (zbd : Zbd) → Obeys zbd → Returns Inv (evictor_step s i zbd (resetting r k z))
  unfolding evictor_step
  resetting-Inv zbd obeys =
      let state = s.zone_state in
      let wp = zone_start state full_here.zone in
      let code : reset_code zbd state full_here.zone ≡ 0 =
        ground (arith, obeys.does_reset state.fd wp state.zone_cap) in
      rw
        (
          evict_zone-success zbd state (held_of s.threads) z full_here.zone v.alloc full_here.there
              is_filled code,
          evictor_step,
        )
        reset-Inv
