-- ===== src/Concurrent/Store.antt =====
-- The write of a chunk and zsm_return_active_zone, among other threads.
use znworkload.Prelude.{
  ℕ, ◌+◌, ◌≡◌, ◌≢◌, ap, refl, Bool, true, Option, some, none, arith, get_elem?, ℕ_discrete,
  Bool-cases, inl, inr,
}
use znworkload.Run.{Returns}
use znworkload.Backend.{Pair}
use znworkload.Zsm.{Zbd}
use znworkload.Zsm.Invariant.{HeldOk}
use znworkload.Zsm.Held.{AllHeld-get}
use znworkload.Promotional.Lru.{has}
use znworkload.Chunks.{Contents, Io, confined, put_chunk_content}
use znworkload.Concurrent.{System, Pc, writing, returning, failing, enter, writer_step}
use znworkload.Concurrent.Places.{holds, hold_zone, full_zone, number, number-two}
use znworkload.Concurrent.Held.{held_of, held_index, held-number, held_of-get}
use znworkload.Concurrent.Invariant.{
  Inv, Hands, hands, Relies, Placed, Stored, Alloc-same, Claims-same, Tokens-same, Clears-same,
  enter-few,
}
use znworkload.Concurrent.Frame.{Data-set, Relies-keep}

module _ (s : System) (i : ℕ) (v : Inv s) (p : Pair) {old : Pc}
    (here : get_elem? s.threads i ≡ some old) (holding : holds old ≡ some p) where
  abbrev pub at_hand : get_elem? (held_of s.threads) (held_index i s.threads) ≡ some p
  at_hand = held_of-get s.threads i p here holding

  pub held_ok : HeldOk s.zone_state.zones s.zone_state.max_zone_chunks p
  held_ok =
      AllHeld-get s.zone_state.zones s.zone_state.max_zone_chunks (held_index i s.threads)
        (held_of s.threads) at_hand v.alloc.all_held

  -- A location that was returned is not the one that the thread writes to.
  pub unplaced :
      (q : Pair) → Placed s.zone_state.zones q → q.zone ≡ p.zone → q.chunk_offset ≢ p.chunk_offset
  unplaced q h same = let o = held_ok in ground (arith, o, h.there, h.behind, same)

  -- No other thread holds a location of the zone.
  pub alone :
      (j : ℕ) (u : Pc) (q : Pair)
      → j ≢ i
      → get_elem? s.threads j ≡ some u
      → holds u ≡ some q
      → q.zone ≢ p.zone
  alone j u q n e h same =
      let o = held_ok in
      let z = v.alloc.zone_ok p.zone o.zone o.found in
      let two =
        number-two hold_zone p.zone s.threads j i u old e here n (ground (arith, h, same))
          (ground (arith, holding)) in
      ground (arith, z.in_held, o.writing, two, held-number p.zone s.threads)

  -- The zone is not full, so the policy and the evictors do not have it.
  pub no_token :
      has (s.eviction_policy.zone_to_lru_map p.zone)
        + number (full_zone s.zone_state.max_zone_chunks) p.zone s.threads
      ≡ 0
  no_token = elim (ℕ_discrete _ 0) [
    | yes e ↦ e
    | no n ↦
        let f = v.tokens.full p.zone (omega (arith, n)) in
        let o = held_ok in absurd (ground (arith, f, o))
  ]

-- A write to a location that the thread holds changes what no other thread relies on.
module _ (s : System) (i : ℕ) (v : Inv s) (id : ℕ) (p : Pair)
    (here : get_elem? s.threads i ≡ some (writing id p)) (inside : Bool) (d : Option ℕ)
    (t : Pc) where
  abbrev f : Contents
  f = put_chunk_content s.contents inside p d

  keeps : (q : Pair) (j : ℕ) → Stored s.contents s.zone_state q j → Stored f s.zone_state q j
  keeps q j h = record {
    content = ground (arith, h.content, unplaced s i v p here refl q h.placed);
    placed = h.placed;
    room = h.room;
  }

  still : f.intact ≡ true → s.contents.intact ≡ true
  still h = ground (arith, h)

  pub written-Inv :
      hands s.zone_state.max_zone_chunks t ≡ hands s.zone_state.max_zone_chunks (writing id p)
      → Relies s.cache_map f s.zone_state t
      → Inv (enter (record s { contents = f }) i t)
  written-Inv e r =
      let ts = s.threads in
      let old : Pc = writing id p in
      record {
        alloc = Alloc-same ts i old t here s.zone_state (ap (λ (h : Hands). h.held) e) v.alloc;
        same_num = v.same_num;
        few = enter-few ts i old t here v.few;
        claims =
            Claims-same ts i old t here s.cache_map (ap (λ (h : Hands). h.fetched) e)
              (ap (λ (h : Hands). h.reader) e) v.claims;
        tokens =
            Tokens-same ts i old t here s.eviction_policy s.zone_state
              (ap (λ (h : Hands). h.full) e) v.tokens;
        chunks =
            Data-set s.cache_map s.cache_map s.contents f s.zone_state s.zone_state ts i old t here
              (λ j q h. keeps q j (v.chunks.stored j q h))
              (λ j u n g.
                Relies-keep s.cache_map s.cache_map s.contents f s.zone_state s.zone_state u
                  (λ k b q x y z. (y, z)) (λ q k x h. keeps q k h)
                  (λ q k h x. ground (arith, x, alone s i v p here refl j u q n g h)) still refl)
              r (rw ((ap (λ (h : Hands). h.fetched) e)) (v.chunks.small i old here)) v.chunks;
        clears =
            Clears-same ts i old t here s.cache_map (ap (λ (h : Hands). h.emptied) e)
              (ap (λ (h : Hands). h.published) e) (ap (λ (h : Hands). h.reset) e)
              (ap (λ (h : Hands). h.reader) e) v.clears;
      }

pub writing-Inv :
    (s : System) (i : ℕ) (v : Inv s) (io : Io) (zbd : Zbd) (id : ℕ) (p : Pair)
    → get_elem? s.threads i ≡ some (writing id p)
    → Returns Inv (writer_step s i io zbd (writing id p))
unfolding writer_step
writing-Inv s i v io zbd id p here = elim (Bool-cases io.success) [
  | inl good ↦
      rw (good, writer_step)
        (written-Inv s i v id p here (confined s.layout io) (some id) (returning id p) refl
          (ground arith))
  | inr bad ↦
      rw (bad, writer_step)
        (written-Inv s i v id p here (confined s.layout io) none (failing id p) refl tt)
]
