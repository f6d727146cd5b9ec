-- ===== src/Concurrent/Give.antt =====
-- zsm_return_active_zone after a write, among other threads.
use znworkload.Prelude.{ℕ, ◌+◌, ◌<◌, ◌≡◌, refl, some, arith, get_elem?, set, inl, inr, ℕ_discrete}
use znworkload.Run.{Returns, Returns-ok, Returns-value}
use znworkload.Backend.{Pair}
use znworkload.Zsm.{Zsm, Zbd, Zone, return_active_zone, zone_start}
use znworkload.Zsm.Return.{Returned, return_active_zone-Returned}
use znworkload.Promotional.Lru.{has}
use znworkload.Chunks.{Io}
use znworkload.Concurrent.{System, Pc, returning, noting, enter, writer_step}
use znworkload.Concurrent.Places.{
  reads, cleared, publishes, resets, full_zone, one, number, number-set, number-same, cleared-le,
}
use znworkload.Concurrent.Held.{held_of, held_index, held_of-without}
use znworkload.Concurrent.Zones.{Kept, GaveKept, return_active_zone-Kept}
use znworkload.Concurrent.Invariant.{Inv, Placed, FullZone, Tokens, Clears, Claims-same, enter-few}
use znworkload.Concurrent.Frame.{FullZone-grows, Data-grows}
use znworkload.Concurrent.Store.{held_ok, at_hand, no_token}

-- The device finishes every zone that it is asked to finish, and resets every zone likewise.
pub record Obeys (zbd : Zbd) : Type 0 where
  pub finishes : (fd wp len : ℕ) → zbd.finish_zones fd wp len ≡ 0
  pub does_reset : (fd wp len : ℕ) → zbd.reset_zones fd wp len ≡ 0

module _ (s : System) (i : ℕ) (v : Inv s) (id : ℕ) (p : Pair)
    (here : get_elem? s.threads i ≡ some (returning id p)) (zbd : Zbd) (obeys : Obeys zbd) where
  abbrev t : Pc
  t = noting id p

  abbrev max : ℕ
  max = s.zone_state.max_zone_chunks

  module _ (zs : Zsm) (ret : ℕ) (z : Zone) (kept : Kept s.zone_state zs)
      (g : Returned zbd s.zone_state
        (held_of s.threads)
        (held_index i s.threads)
        p
        z
        (zs, ret)) where
    -- The zone was closed if this was its last chunk.
    last_full : p.chunk_offset + 1 ≡ max → FullZone zs.zones p.zone
    last_full e = elim g.2 [
      | inl more ↦ absurd (omega (arith, more.0))
      | inr (inl closed) ↦ record { zone = _; there = closed.3; filled = refl }
      | inr (inr refused) ↦
          let wp = zone_start s.zone_state z in
          absurd (ground (arith, refused, obeys.finishes s.zone_state.fd wp s.zone_state.zone_cap))
    ]

    behind_now : Placed zs.zones p
    behind_now = elim g.2 [
      | inl more ↦ record { zone = _; there = more.3; behind = inr (omega arith) }
      | inr (inl closed) ↦ record { zone = _; there = closed.3; behind = inl refl }
      | inr (inr refused) ↦ record { zone = _; there = refused.4; behind = inr (omega arith) }
    ]

    tokens_now :
        (z : ℕ)
        → number (full_zone max) z (set s.threads i t)
          ≡ number (full_zone max) z s.threads + one z (full_zone max t)
    tokens_now z = omega (arith, number-set (full_zone max) z s.threads i t here)

    give-Tokens : Tokens s.eviction_policy zs (set s.threads i t)
    give-Tokens = record {
      policy_ok = v.tokens.policy_ok;
      same_max = ground (arith, v.tokens.same_max, kept.1);
      single = λ z.
          rw (kept.1, tokens_now z) (ground (arith, v.tokens.single z, no_token s i v p here refl));
      full = λ z h.
          let h' : 0
              < has (s.eviction_policy.zone_to_lru_map z)
                + (number (full_zone max) z s.threads + one z (full_zone max t)) =
            rw (tokens_now z) at (rw kept.1 at h) in
          elim (ℕ_discrete (one z (full_zone max t)) 0) [
            | yes none_new ↦
                FullZone-grows s.zone_state.zones zs.zones z kept.0
                  (v.tokens.full z (omega (arith, h', none_new)))
            | no new ↦
                let same : (p.zone ≡ z) × (p.chunk_offset + 1 ≡ max) = ground (arith, new) in
                ground (arith, last_full same.1, same.0)
          ];
    }

    give-Clears : Clears s.cache_map (set s.threads i t)
    give-Clears =
        let a = λ (z : ℕ). number-same cleared z s.threads i t here refl in
        let b = λ (z : ℕ). number-same resets z s.threads i t here refl in
        let c = λ (z : ℕ). number-same reads z s.threads i t here refl in
        record {
          vacant = λ z j q h. v.clears.vacant z j q (rw (a z) at h);
          unpublished = λ z h.
              let h' : 0 < number cleared z s.threads = rw (a z) at h in
              ground (
                arith,
                v.clears.unpublished z h',
                number-set publishes z s.threads i t here,
                cleared-le max z s.threads,
                no_token s i v p here refl,
              );
          quiet = λ z h. rw (c z) (v.clears.quiet z (rw (b z) at h));
        }

    give-Inv : Inv (enter (record s { zone_state = zs }) i t)
    give-Inv = record {
      alloc = rw (held_of-without s.threads i p t here refl refl) g.0;
      same_num = ground (arith, kept.2, v.same_num);
      few = enter-few s.threads i (returning id p) t here v.few;
      claims = Claims-same s.threads i (returning id p) t here s.cache_map refl refl v.claims;
      tokens = give-Tokens;
      chunks =
          Data-grows s.cache_map s.contents s.zone_state zs s.threads i (returning id p) t here kept
            (record {
              content = v.chunks.relies i (returning id p) here;
              placed = behind_now;
              room = ground (arith, kept.1, (held_ok s i v p here refl).room);
            })
            (v.chunks.small i (returning id p) here) v.chunks;
      clears = give-Clears;
    }

  pub returning-Inv : (io : Io) → Returns Inv (writer_step s i io zbd (returning id p))
  unfolding writer_step
  returning-Inv io =
      let zs = s.zone_state in
      let held = held_of s.threads in
      let k = held_index i s.threads in
      let at = at_hand s i v p here refl in
      let (z, found, state, back) = return_active_zone-Returned zbd zs held k p v.alloc at in
      let ((t, ret), e, g) =
        Returns-ok (Returned zbd zs held k p z) (return_active_zone zbd zs p) back in
      let kept =
        Returns-value (GaveKept zbd zs held v.alloc k p at) e
          (return_active_zone-Kept zbd zs held v.alloc k p at) in
      rw (e, writer_step) (give-Inv t ret z kept g)
