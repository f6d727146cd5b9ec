-- ===== src/Concurrent/Note.antt =====
-- The policy hears of a write, among other threads.
use znworkload.Prelude.{
  ℕ, ◌+◌, ◌<◌, ◌≡◌, refl, true, some, none, [], ◌∷◌, arith, get_elem?, set, if◌then◌else◌, ◌==◌,
  occ-append, inl, inr, Option-cases, Bool-cases,
}
use znworkload.Run.{Returns, Returns-ok}
use znworkload.Backend.{Pair}
use znworkload.Zsm.{Zbd}
use znworkload.Promotional.{Policy, promotional_update, write}
use znworkload.Promotional.Lru
use znworkload.Promotional.Lru.{has, order}
use znworkload.Promotional.Refines.{Accessed, fills, promotional_update-Accessed}
use znworkload.Chunks.{Io}
use znworkload.Concurrent.{System, Pc, noting, publishing, enter, writer_step}
use znworkload.Concurrent.Places.{full_zone, number, number-set, number-get}
use znworkload.Concurrent.Invariant.{Inv, Tokens, Alloc-same, Claims-same, Clears-same, enter-few}
use znworkload.Concurrent.Frame.{Data-same}
use znworkload.Concurrent.Hit.{fits}

-- A write of a zone's last chunk adds the zone.
write-has :
    (q q' : Policy) (p : Pair) (z : ℕ)
    → Lru.Inv q
    → Accessed q p write q'
    → has (q'.zone_to_lru_map z)
      ≡ has (q.zone_to_lru_map z) + (if fills q p then (if p.zone == z then 1 else 0) else 0)
write-has q q' p z v (inv, moved, max) = elim (Bool-cases (fills q p)) [
  | inl full ↦
      ground
        (arith, full, moved, inv.zones z, v.zones z, occ-append z (order q.lru_queue) (p.zone ∷ []))
  | inr more ↦ ground (arith, more, moved, inv.zones z, v.zones z)
]

module _ (s : System) (i : ℕ) (v : Inv s) (id : ℕ) (p : Pair)
    (here : get_elem? s.threads i ≡ some (noting id p)) where
  abbrev t : Pc
  t = publishing id p

  abbrev max : ℕ
  max = s.zone_state.max_zone_chunks

  room : p.chunk_offset < max
  room = (v.chunks.relies i (noting id p) here).room

  -- The policy's test for the last chunk is the one that the zone state manager makes.
  fills-last : fills s.eviction_policy p ≡ (p.chunk_offset + 1 == max)
  fills-last =
      let f = fits s v p room in
      ground (arith, v.tokens.same_max, f.chunks_pos, f.chunks_small, room)

  once : fills s.eviction_policy p ≡ true → s.eviction_policy.zone_to_lru_map p.zone ≡ none
  once full = elim (Option-cases (s.eviction_policy.zone_to_lru_map p.zone)) [
    | inl e ↦ e
    | inr (l, e) ↦
        let last : (p.chunk_offset + 1 == max) ≡ true = ground (arith, fills-last, full) in
        absurd (
          ground (
            arith,
            e,
            v.tokens.single p.zone,
            number-get (full_zone max) p.zone s.threads i (noting id p) here (ground (arith, last)),
          ))
  ]

  module _ (q : Policy) (a : Accessed s.eviction_policy p write q) where
    -- The thread's full zone is the policy's now.
    sum_same :
        (z : ℕ)
        → has (q.zone_to_lru_map z) + number (full_zone max) z (set s.threads i t)
          ≡ has (s.eviction_policy.zone_to_lru_map z) + number (full_zone max) z s.threads
    sum_same z = ground (
      arith,
      write-has s.eviction_policy q p z v.tokens.policy_ok a,
      fills-last,
      number-set (full_zone max) z s.threads i t here,
    )

    note-Tokens : Tokens q s.zone_state (set s.threads i t)
    note-Tokens = record {
      policy_ok = a.0;
      same_max = ground (arith, a.2, v.tokens.same_max);
      single = λ z. omega (arith, sum_same z, v.tokens.single z);
      full = λ z h. v.tokens.full z (omega (arith, sum_same z, h));
    }

    note-Inv : Inv (enter (record s { eviction_policy = q }) i t)
    note-Inv = record {
      alloc = Alloc-same s.threads i (noting id p) t here s.zone_state refl v.alloc;
      same_num = v.same_num;
      few = enter-few s.threads i (noting id p) t here v.few;
      claims = Claims-same s.threads i (noting id p) t here s.cache_map refl refl v.claims;
      tokens = note-Tokens;
      chunks =
          Data-same s.cache_map s.contents s.zone_state s.threads i (noting id p) t here
            (v.chunks.relies i (noting id p) here) (v.chunks.small i (noting id p) here) v.chunks;
      clears =
          Clears-same s.threads i (noting id p) t here s.cache_map refl refl refl refl v.clears;
    }

  pub noting-Inv : (io : Io) (zbd : Zbd) → Returns Inv (writer_step s i io zbd (noting id p))
  unfolding writer_step
  noting-Inv io zbd =
      let (q, e, a) =
        Returns-ok (Accessed s.eviction_policy p write)
          (promotional_update s.eviction_policy p write)
          (promotional_update-Accessed s.eviction_policy p write v.tokens.policy_ok
            (fits s v p room) λ h. once) in
      rw (e, writer_step) (note-Inv q a)
