-- ===== src/Concurrent/Evictor.antt =====
-- The loop of zn_fg_evict and its choice of a zone, among other threads.
use znworkload.Prelude.{
  ℕ, zero, suc, ◌+◌, ◌<◌, ◌≤◌, ◌≡◌, ◌≢◌, ◌^◌, refl, false, Option, some, none, List, [], ◌∷◌, arith,
  length, get_elem?, get_elem?-lt, set, ◌==◌, occ, inl, inr, ℕ_discrete, minus_one, Bool-cases,
  count-le,
}
use znworkload.Run.{ok, Returns, Returns-ok}
use znworkload.Zsm.{Zbd}
use znworkload.Promotional.{Policy, Link, get_zone_to_evict}
use znworkload.Promotional.Lru
use znworkload.Promotional.Lru.{has, order, erase, occ-erase}
use znworkload.Promotional.Refines.{Evicts, get_zone_to_evict-Evicts}
use znworkload.Eviction.{to_evict, positive}
use znworkload.Eviction.Foreground.{order-length}
use znworkload.Concurrent.{
  System, Pc, idle, locating, counting, choosing, clearing, waiting, resetting, enter, after_evict,
  evictor_step,
}
use znworkload.Concurrent.Places.{
  names, cleared, publishes, resets, reads, full_zone, number, number-set, number-same,
}
use znworkload.Concurrent.Invariant.{
  Inv, Clears, FullZone, Alloc-same, Claims-same, Tokens-same, Clears-same, enter-few,
}
use znworkload.Concurrent.Frame.{Data-same}
use znworkload.Concurrent.Reader.{moves-Inv}

erase-length : (z : ℕ) (xs : List ℕ) → 0 < occ z xs → length (erase z xs) + 1 ≡ length xs
erase-length z [] h = absurd (omega arith)
erase-length z (x ∷ xs) h = ground (arith, erase-length z xs)

get_zone_to_evict-max :
    (p q : Policy) (z : ℕ) → get_zone_to_evict p ≡ ok (q, z) → q.zone_max_chunks ≡ p.zone_max_chunks
unfolding get_zone_to_evict
get_zone_to_evict-max p q z e = by_queue p.lru_queue refl
  where
    by_queue : (ns : List Link) → p.lru_queue ≡ ns → q.zone_max_chunks ≡ p.zone_max_chunks
    by_queue [] h = ground (arith, e, h)
    by_queue (n ∷ ns) h = ground (arith, e, h)

-- Distinct numbers below `n` are at most `n`.
length-bounded :
    (n : ℕ) (xs : List ℕ)
    → ((z : ℕ) → occ z xs ≤ 1)
    → ((z : ℕ) → 0 < occ z xs → z < n)
    → length xs ≤ n
length-bounded zero [] d b = omega arith
length-bounded zero (x ∷ xs) d b = absurd (ground (arith, b x))
length-bounded (suc n) xs d b = elim (ℕ_discrete (occ n xs) 0) [
  | yes absent ↦
      let r = length-bounded n xs d λ z h.
        (let lt = b z h in
          let m : z ≢ n = λ e. ground (arith, e, h, absent) in omega (arith, lt, m)) in
      omega (arith, r)
  | no there ↦
      let e = λ (z : ℕ). occ-erase n z xs (omega (arith, there)) in
      let r =
        length-bounded n (erase n xs) (λ z. omega (arith, e z, d z))
          λ z h.
            (let lt = b z (omega (arith, e z, h)) in
              let m : z ≢ n = λ q. ground (arith, q, h, e n, d n) in omega (arith, lt, m)) in
      omega (arith, r, erase-length n xs)
]

module _ (s : System) (i : ℕ) (v : Inv s) where
  abbrev max : ℕ
  max = s.zone_state.max_zone_chunks

  abbrev p : Policy
  p = s.eviction_policy

  inside : (z : ℕ) → FullZone s.zone_state.zones z → z < s.zone_state.num_zones
  inside z f =
      let lt = get_elem?-lt s.zone_state.zones z f.there in
      omega (arith, lt, v.alloc.sizes.zones_length)

  -- The policy has at most the zones of the device.
  few_zones : length p.lru_queue < 2 ^ 32
  few_zones =
      let b =
        length-bounded s.zone_state.num_zones (order p.lru_queue)
          (λ z. omega (arith, v.tokens.policy_ok.zones z, v.tokens.single z))
          λ z h. inside z (v.tokens.full z (omega (arith, v.tokens.policy_ok.zones z, h))) in
      omega (arith, b, order-length p.lru_queue, v.alloc.sizes.zones_small)

  -- The evictor returns to its caller, or takes another round.
  pub after_evict-Inv :
      (r : Option ℕ) (k : ℕ)
      → get_elem? s.threads i ≡ some (choosing r k)
      → Inv (enter s i (after_evict r))
  after_evict-Inv none k here = moves-Inv s i v (choosing none k) idle here refl tt
  after_evict-Inv (some id) k here =
      moves-Inv s i v (choosing (some id) k) (locating id) here refl tt

  pub counting-Inv :
      (r : Option ℕ) (zbd : Zbd)
      → get_elem? s.threads i ≡ some (counting r)
      → Returns Inv (evictor_step s i zbd (counting r))
  unfolding evictor_step
  counting-Inv r zbd here =
      moves-Inv s i v (counting r) (choosing r (to_evict s.zone_state)) here refl tt

  -- The zone at the head of the policy's queue goes into the evictor's hands.
  module _ (r : Option ℕ) (k : ℕ) (here : get_elem? s.threads i ≡ some (choosing r (suc k)))
      (q : Policy) (z : ℕ) (inv : Lru.Inv q) (split : order p.lru_queue ≡ z ∷ order q.lru_queue)
      (max_same : q.zone_max_chunks ≡ p.zone_max_chunks) where
    abbrev t : Pc
    t = clearing r k z

    sum_same :
        (j : ℕ)
        → has (q.zone_to_lru_map j) + number (full_zone max) j (set s.threads i t)
          ≡ has (p.zone_to_lru_map j) + number (full_zone max) j s.threads
    sum_same j = ground (
      arith,
      inv.zones j,
      v.tokens.policy_ok.zones j,
      split,
      number-set (full_zone max) j s.threads i t here,
    )

    chosen_full : FullZone s.zone_state.zones z
    chosen_full = v.tokens.full z (ground (arith, v.tokens.policy_ok.zones z, split))

    proper : (z == minus_one) ≡ false
    proper = let lt = inside z chosen_full in ground (arith, lt, v.alloc.sizes.zones_small)

    chosen-Inv : Inv (enter (record s { eviction_policy = q }) i t)
    chosen-Inv = record {
      alloc = Alloc-same s.threads i (choosing r (suc k)) t here s.zone_state refl v.alloc;
      same_num = v.same_num;
      few = enter-few s.threads i (choosing r (suc k)) t here v.few;
      claims = Claims-same s.threads i (choosing r (suc k)) t here s.cache_map refl refl v.claims;
      tokens = record {
        policy_ok = inv;
        same_max = ground (arith, max_same, v.tokens.same_max);
        single = λ j. omega (arith, sum_same j, v.tokens.single j);
        full = λ j h. v.tokens.full j (omega (arith, sum_same j, h));
      };
      chunks =
          Data-same s.cache_map s.contents s.zone_state s.threads i (choosing r (suc k)) t here tt
            (v.chunks.small i (choosing r (suc k)) here) v.chunks;
      clears =
          Clears-same s.threads i (choosing r (suc k)) t here s.cache_map refl refl refl refl
            v.clears;
    }

  pub choosing-Inv :
      (r : Option ℕ) (k : ℕ) (zbd : Zbd)
      → get_elem? s.threads i ≡ some (choosing r k)
      → Returns Inv (evictor_step s i zbd (choosing r k))
  unfolding evictor_step
  choosing-Inv r zero zbd here = after_evict-Inv r zero here
  choosing-Inv r (suc k) zbd here =
      let ((q, z), e, h) =
        Returns-ok (Evicts p) (get_zone_to_evict p)
          (get_zone_to_evict-Evicts p v.tokens.policy_ok few_zones) in
      rw (e, evictor_step)
        (elim h [
          | inl (empty, last, same) ↦ rw (last, same) (after_evict-Inv r (suc k) here)
          | inr (inv, split, forgot) ↦
              rw (proper r k here q z inv split (get_zone_to_evict-max p q z e))
                (chosen-Inv r k here q z inv split (get_zone_to_evict-max p q z e))
        ])

  -- The readers of the cleared zone are gone, or the evictor waits.
  module _ (r : Option ℕ) (k z : ℕ) (here : get_elem? s.threads i ≡ some (waiting r k z)) where
    abbrev u : Pc
    u = resetting r k z

    emptied-Clears : s.cache_map.active_readers z ≡ 0 → Clears s.cache_map (set s.threads i u)
    emptied-Clears e =
        let a = λ (j : ℕ). number-same cleared j s.threads i u here refl in
        let c = λ (j : ℕ). number-same reads j s.threads i u here refl in
        record {
          vacant = λ j id l h. v.clears.vacant j id l (rw (a j) at h);
          unpublished = λ j h.
              rw (number-same publishes j s.threads i u here refl)
                (v.clears.unpublished j (rw (a j) at h));
          quiet = λ j h. ground (
            arith,
            c j,
            number-set resets j s.threads i u here,
            v.clears.quiet j,
            v.claims.readers j,
            e,
          );
        }

    emptied-Inv : s.cache_map.active_readers z ≡ 0 → Inv (enter s i u)
    emptied-Inv e = record {
      alloc = Alloc-same s.threads i (waiting r k z) u here s.zone_state refl v.alloc;
      same_num = v.same_num;
      few = enter-few s.threads i (waiting r k z) u here v.few;
      claims = Claims-same s.threads i (waiting r k z) u here s.cache_map refl refl v.claims;
      tokens =
          Tokens-same s.threads i (waiting r k z) u here s.eviction_policy s.zone_state refl
            v.tokens;
      chunks =
          Data-same s.cache_map s.contents s.zone_state s.threads i (waiting r k z) u here tt
            (v.chunks.small i (waiting r k z) here) v.chunks;
      clears = emptied-Clears e;
    }

    -- There are fewer than 2^31 threads, so the counter is not negative.
    none_left : positive (s.cache_map.active_readers z) ≡ false → s.cache_map.active_readers z ≡ 0
    none_left h =
        ground (arith, h, v.claims.readers z, count-le (λ w. names z (reads w)) s.threads, v.few)

    pub waiting-Inv : (zbd : Zbd) → Returns Inv (evictor_step s i zbd (waiting r k z))
    unfolding evictor_step
    waiting-Inv zbd = elim (Bool-cases (positive (s.cache_map.active_readers z))) [
      | inl stays ↦ rw stays (moves-Inv s i v (waiting r k z) (waiting r k z) here refl tt)
      | inr ends ↦ rw ends (emptied-Inv (none_left ends))
    ]
