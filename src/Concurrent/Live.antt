-- ===== src/Concurrent/Live.antt =====
-- No schedule brings the threads of src/cache.c to a standstill.
use znworkload.Prelude.{
  ℕ, ◌≡◌, ◌≢◌, refl, ap, ◌∙◌, true, false, Option, some, List, arith, get_elem?, Bool-cases, inl,
  inr,
}
use znworkload.Run.{ok, Returns, Returns-ok, Returns-map}
use znworkload.Zsm.{Zbd}
use znworkload.Cachemap.{Cachemap, cachemap_clear_zone}
use znworkload.Cachemap.Clear.{ZoneCleared, cachemap_clear_zone-ZoneCleared}
use znworkload.Chunks.{Io}
use znworkload.Concurrent.{
  System, Pc, clearing, waiting, enter, Event, go_on, thread_step, step, run, evictor_step,
}
use znworkload.Concurrent.Invariant.{Inv}
use znworkload.Concurrent.Give.{Obeys}
use znworkload.Concurrent.Clearing.{inside}
use znworkload.Concurrent.Race.{step-there}
use znworkload.Concurrent.Progress.{in_call, blocked-Moves}
use znworkload.Concurrent.Moving.{thread_step-Goes}
use znworkload.Concurrent.Safe.{AllAllowed, undisturbed, calm_at, thread_step-Inv, run-Inv}

-- Some thread is in a call, and its next step returns and brings it to another place.
pub record GoesOn (zbd : Zbd) (s : System) : Type 0 where
  pub index : ℕ
  pub place : Pc
  pub there : get_elem? s.threads index ≡ some place
  pub calls : in_call place ≡ true
  pub goes :
      (io : Io)
      → Returns (λ t. get_elem? t.threads index ≢ some place) (step s (go_on index io zbd))

uncalm :
    (s : System) (t : Pc)
    → calm_at s (some t) ≡ false
    → (r : Option ℕ) × (k : ℕ) × (z : ℕ) × (t ≡ clearing r k z)
uncalm s (clearing r k z) e = (r, k, z, refl)
uncalm s _ e = cc

cleared-step :
    (s : System) (i : ℕ) (io : Io) (zbd : Zbd) (r : Option ℕ) (k z : ℕ) (m : Cachemap)
    → cachemap_clear_zone s.cache_map z ≡ ok m
    → thread_step s i io zbd (clearing r k z)
      ≡ ok (enter (record s { cache_map = m }) i (waiting r k z))
unfolding thread_step evictor_step
cleared-step s i io zbd r k z m e = rw (e, thread_step, evictor_step) refl

module _ (s : System) (v : Inv s) (zbd : Zbd) (obeys : Obeys zbd) where
  -- A step returns also where it disturbs another thread.
  thread_step-returns :
      (i : ℕ) (io : Io) (t : Pc)
      → get_elem? s.threads i ≡ some t
      → (u : System) × (thread_step s i io zbd t ≡ ok u)
  thread_step-returns i io t here = elim (Bool-cases (calm_at s (some t))) [
    | inl calm ↦
        let (u, e, w) =
          Returns-ok Inv (thread_step s i io zbd t)
            (thread_step-Inv s i io zbd t obeys v here calm) in
        (u, e)
    | inr disturbs ↦
        let (r, k, z, same) = uncalm s t disturbs in
        let (m, e, c) = Returns-ok (ZoneCleared s.cache_map z) (cachemap_clear_zone s.cache_map z) (
          cachemap_clear_zone-ZoneCleared s.cache_map z v.claims.map_ok
            (inside s i v r k z (ground (arith, here, same)))) in
        (
          enter (record s { cache_map = m }) i (waiting r k z),
          ap (thread_step s i io zbd) same ∙ cleared-step s i io zbd r k z m e,
        )
  ]

  Inv-GoesOn : (i : ℕ) (t : Pc) → get_elem? s.threads i ≡ some t → in_call t ≡ true → GoesOn zbd s
  Inv-GoesOn i t here c =
      let m = blocked-Moves zbd s v i t here c in
      record {
        index = m.index;
        place = m.place;
        there = m.there;
        calls = m.calls;
        goes = λ io.
            let (u, e) = thread_step-returns m.index io m.place m.there in
            rw (step-there s m.index io zbd m.place m.there, e)
              (thread_step-Goes s m.index io zbd u m.place m.there e m.calls m.free_to);
      }

-- If the invariant holds at the start, under the conditions of run-Inv on the schedule, after a
-- schedule in which some thread has not ended its call, some thread that has not ended its call
-- takes a step that returns and brings it to another place, if it goes next: not all of them wait
-- for a writer of their ID, for an active zone, or for the readers of a zone.
pub run-GoesOn :
    (s : System) (es : List Event) (zbd : Zbd)
    → AllAllowed es
    → undisturbed s es ≡ true
    → Obeys zbd
    → Inv s
    → Returns
        (λ t. (i : ℕ) (u : Pc) → get_elem? t.threads i ≡ some u → in_call u ≡ true → GoesOn zbd t)
        (run s es)
run-GoesOn s es zbd a u o v =
    Returns-map Inv _ (run s es) (run-Inv s es a u v) λ t w. Inv-GoesOn t w zbd o
