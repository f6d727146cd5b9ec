-- ===== src/Zsm/Clients.antt =====
-- Any number of threads that use the zone state manager as src/cache.c does: a location that was
-- handed out is given back once, written or failed, and only full zones are evicted. The calls are
-- serialised by `state_mutex`, so a history of the threads is a list of calls.
use znworkload.Prelude.{
  ℕ, zero, suc, ◌<◌, ◌≡◌, ◌≢◌, refl, sym, ap, List, [], ◌∷◌, some, none, arith, get_elem?, occ, ltb,
  if◌then◌else◌, Bool-cases, inl, inr, Option-cases,
}
use znworkload.Run.{Run, ok, Returns, ◌>>=◌, Returns-bind, Returns-value}
use znworkload.Backend.{Pair}
use znworkload.Zsm.{
  Zsm, Zbd, Zone, is_full, zone_start, get_active_zone, ActiveZone, success, retry, error, evict,
  return_active_zone, failed_to_write, evict_zone, mark_chunk_invalid,
}
use znworkload.Zsm.Invariant.{Inv, held_zones}
use znworkload.Zsm.Held.{without, AllHeld-get}
use znworkload.Zsm.Get.{Got, get_active_zone-Got}
use znworkload.Zsm.Return.{return_active_zone-Returned, failed_to_write-Undone, Returned, Undone}
use znworkload.Zsm.Evict.{
  evict_zone-Evicted, mark_chunk_invalid-Marked, reset_code, Evicted, Marked,
}

-- The manager and the locations that its threads hold.
pub record Clients : Type 0 where
  pub zsm : Zsm
  pub held : List Pair

-- A call of some thread: take a location, give back a written or a failed one (the `k`-th that is
-- held), evict a zone, or mark a chunk.
pub data Call : Type 0 where
  take : Zbd → Call
  give_back : Zbd → ℕ → Call
  give_up : ℕ → Call
  evicts : Zbd → ℕ → Call
  marks : Pair → Call

abbrev hold : ActiveZone → List Pair → List Pair
hold (success p) held = p ∷ held
hold _ held = held

-- A thread cannot give back what no thread holds, evicts full zones only, and marks chunks of
-- zones only; such a call is left out of the history.
unfoldable pub perform : Clients → Call → Run Clients
perform c (take zbd) = do
  (t, r) ← get_active_zone zbd c.zsm
  ok (record { zsm = t; held = hold r c.held })
perform c (give_back zbd k) = elim (get_elem? c.held k) [
  | none ↦ ok c
  | some p ↦ do
    (t, _) ← return_active_zone zbd c.zsm p
    ok (record { zsm = t; held = without k c.held })
]
perform c (give_up k) = elim (get_elem? c.held k) [
  | none ↦ ok c
  | some p ↦ do t ← failed_to_write c.zsm p; ok (record { zsm = t; held = without k c.held })
]
perform c (evicts zbd i) = elim (get_elem? c.zsm.zones i) [
  | none ↦ ok c
  | some z ↦
      if is_full z.state
      then (do (t, _) ← evict_zone zbd c.zsm i; ok (record c { zsm = t }))
      else ok c
]
perform c (marks p) =
    if ltb p.zone c.zsm.num_zones
    then (do t ← mark_chunk_invalid c.zsm p; ok (record c { zsm = t }))
    else ok c

unfoldable pub run : Clients → List Call → Run Clients
run c [] = ok c
run c (e ∷ es) = perform c e >>= λ d. run d es

-- The device resets every zone that it is asked to reset.
abbrev pub Resets : Call → Type 0
Resets (evicts zbd i) = (fd wp len : ℕ) → zbd.reset_zones fd wp len ≡ 0
Resets _ = Unit {0}

abbrev pub AllResets : List Call → Type 0
AllResets [] = Unit {0}
AllResets (e ∷ es) = Resets e × AllResets es

-- Each call returns, whatever the device answers to it, and keeps the invariant.
abbrev pub Safe : Clients → Type 0
Safe c = Inv c.zsm c.held

Got-Safe :
    (zbd : Zbd) (c : Clients)
    → Safe c
    → (t : Zsm) (r : ActiveZone) → Got zbd c.zsm c.held (t, r)
    → Safe (record { zsm = t; held = hold r c.held })
Got-Safe zbd c v t (success p) g = g.0
Got-Safe zbd c v t error g = g.0
Got-Safe zbd c v t retry g = ground (arith, v, g)
Got-Safe zbd c v t evict g = ground (arith, v, g)

-- Every call of a history keeps the invariant, and no assertion of the manager fails in it.
pub perform-Safe : (c : Clients) (e : Call) → Resets e → Safe c → Returns Safe (perform c e)
unfolding perform
perform-Safe c (take zbd) q v =
    Returns-bind (Got zbd c.zsm c.held) Safe _ (get_active_zone zbd c.zsm)
      (get_active_zone-Got zbd c.zsm c.held v) λ (t, r) g. Got-Safe zbd c v t r g
perform-Safe c (give_back zbd k) q v = elim (Option-cases (get_elem? c.held k)) [
  | inl e ↦ rw (e, perform) v
  | inr (p, e) ↦
      let (z, _, _, back) = return_active_zone-Returned zbd c.zsm c.held k p v e in
      rw (e, perform)
        (Returns-bind (Returned zbd c.zsm c.held k p z) Safe _ (return_active_zone zbd c.zsm p) back
          λ (t, r) g. g.0)
]
perform-Safe c (give_up k) q v = elim (Option-cases (get_elem? c.held k)) [
  | inl e ↦ rw (e, perform) v
  | inr (p, e) ↦
      let (z, _, back) = failed_to_write-Undone c.zsm c.held k p v e in
      rw (e, perform)
        (Returns-bind (Undone c.zsm c.held k p z) Safe _ (failed_to_write c.zsm p) back λ t g. g.0)
]
perform-Safe c (evicts zbd i) q v = elim (Option-cases (get_elem? c.zsm.zones i)) [
  | inl e ↦ rw (e, perform) v
  | inr (z, e) ↦
      rw (e, perform)
        (elim (Bool-cases (is_full z.state)) [
          | inl filled ↦
              rw (filled, perform)
                (Returns-bind (Evicted c.zsm c.held i z) Safe _ (evict_zone zbd c.zsm i)
                  (evict_zone-Evicted zbd c.zsm c.held i z v e (ground (arith, filled))
                    (resets zbd c z q))
                  λ (t, r) g. g.0)
          | inr other ↦ rw (other, perform) v
        ])
]
  where
    resets :
        (zbd : Zbd) (c : Clients) (z : Zone)
        → ((fd wp len : ℕ) → zbd.reset_zones fd wp len ≡ 0)
        → reset_code zbd c.zsm z ≡ 0
    resets zbd c z q = ground (arith, q c.zsm.fd (zone_start c.zsm z) c.zsm.zone_cap)
perform-Safe c (marks p) q v = elim (Bool-cases (ltb p.zone c.zsm.num_zones)) [
  | inl inside ↦
      let (z, _, back) = mark_chunk_invalid-Marked c.zsm c.held p v (ground (arith, inside)) in
      rw (inside, perform)
        (Returns-bind (Marked c.zsm c.held p z) Safe _ (mark_chunk_invalid c.zsm p) back λ t g. g.0)
  | inr outside ↦ rw (outside, perform) v
]

-- If the invariant holds at the start and the device resets every zone it is asked to reset, then
-- a history of any length, with any interleaving of the threads' calls and any answers of the
-- device to the other requests, returns, without a failed assertion or a crash, in a state with
-- the invariant.
pub run-Safe : (c : Clients) (es : List Call) → AllResets es → Safe c → Returns Safe (run c es)
unfolding run
run-Safe c [] q v = v
run-Safe c (e ∷ es) q v =
    Returns-bind Safe Safe _ (perform c e) (perform-Safe c e q.0 v) λ d w. run-Safe d es q.1 w

occ-one :
    (i : ℕ) (held : List Pair) (k : ℕ) (q : Pair)
    → get_elem? held k ≡ some q
    → q.zone ≡ i
    → 0 < occ i (held_zones held)
occ-one i [] k q e z = cc
occ-one i (p ∷ ps) zero q e z = ground arith
occ-one i (p ∷ ps) (suc k) q e z = omega (arith, occ-one i ps k q e z)

occ-two :
    (i : ℕ) (held : List Pair) (j k : ℕ) (p q : Pair)
    → get_elem? held j ≡ some p
    → get_elem? held k ≡ some q
    → j ≢ k
    → p.zone ≡ i
    → q.zone ≡ i
    → 1 < occ i (held_zones held)
occ-two i [] j k p q e f n y z = cc
occ-two i (r ∷ rs) zero zero p q e f n y z = absurd (n refl)
occ-two i (r ∷ rs) zero (suc k) p q e f n y z = ground (arith, occ-one i rs k q f z)
occ-two i (r ∷ rs) (suc j) zero p q e f n y z = ground (arith, occ-one i rs j p e y)
occ-two i (r ∷ rs) (suc j) (suc k) p q e f n y z =
    ground (arith, occ-two i rs j k p q e f (λ h. n (ap suc h)) y z)

apart :
    (c : Clients) (j k : ℕ) (p q : Pair)
    → Safe c
    → get_elem? c.held j ≡ some p
    → get_elem? c.held k ≡ some q
    → j ≢ k
    → p.zone ≢ q.zone
apart c j k p q v hp hq n same =
    let h = AllHeld-get c.zsm.zones c.zsm.max_zone_chunks j c.held hp v.all_held in
    let o = v.zone_ok p.zone h.zone h.found in
    ground (arith, o.in_held, occ-two p.zone c.held j k p q hp hq n refl (sym same))

-- If the invariant holds at the start and the device resets every zone it is asked to reset, then
-- two locations that are held at the same time after a history of any length lie in different
-- zones.
pub run_held_apart :
    (c d : Clients) (es : List Call) (j k : ℕ) (p q : Pair)
    → AllResets es
    → Safe c
    → run c es ≡ ok d
    → get_elem? d.held j ≡ some p
    → get_elem? d.held k ≡ some q
    → j ≢ k
    → p.zone ≢ q.zone
run_held_apart c d es j k p q resets v e hp hq n =
    apart d j k p q (Returns-value Safe e (run-Safe c es resets v)) hp hq n
