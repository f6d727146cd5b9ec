-- ===== src/Workload/Ends.antt =====
-- How the runs of the worker threads end.
use znworkload.Prelude.{
  ℕ, zero, suc, ◌+◌, ◌<◌, ◌≡◌, ◌≢◌, ◌^◌, refl, ap, sym, subst, ◌∙◌, Bool, true, false, Option, some,
  none, List, [], ◌∷◌, if◌then◌else◌, arith, length, get_elem?, set, count, count-le, get_elem?-set,
  get_elem?-lt, ◌⊎◌, dec_lt, some-injective, inl, inr,
}
use znworkload.Workload.{
  Reader, Program, At, start, query, leaving, finished, gone, take_query, begin_query, complete,
  step, step_at, run, initial,
}
use znworkload.Workload.Threads.{run-Inv, run-next, upto, is_finished, is_gone}
use znworkload.Workload.Queries.{reached-Inv, run-Shared}

-- No thread can take a step.
abbrev pub Stuck : Program → Type 0
Stuck p = (t : ℕ) (found : Bool) → step p t found ≡ none

-- Where a thread that cannot step may be.
ended :
    (p : Program) (t : ℕ) (a : At)
    → get_elem? p.threads t ≡ some a
    → step p t true ≡ none
    → (is_finished a ≡ true) ⊎ (is_gone a ≡ true)
unfolding step
ended p t start l e = let f = rw l at e in cc
ended p t (query wi) l e = let f = rw l at e in cc
ended p t leaving l e = let f = rw l at e in cc
ended p t finished l e = inl refl
ended p t gone l e = inr refl

ended-counts :
    (a : At)
    → (is_finished a ≡ true) ⊎ (is_gone a ≡ true)
    → (if is_finished a then 1 else 0) + (if is_gone a then 1 else 0) ≡ 1
ended-counts start h = ground arith
ended-counts (query wi) h = ground arith
ended-counts leaving h = ground arith
ended-counts finished h = refl
ended-counts gone h = refl

all_ended :
    (ts : List At)
    → ((t : ℕ) (a : At) → get_elem? ts t ≡ some a → (is_finished a ≡ true) ⊎ (is_gone a ≡ true))
    → count is_finished ts + count is_gone ts ≡ length ts
all_ended [] h = refl
all_ended (a ∷ ts) h =
    let rest = all_ended ts (λ t b l. h (suc t) b l) in
    let one = ended-counts a (h zero a refl) in omega (arith, rest, one)

-- A thread that is gone stays so.
module _ (p : Program) (i : ℕ) (lost : get_elem? p.threads i ≡ some gone) where
  move_to-keeps :
      (t : ℕ) (a b : At)
      → get_elem? p.threads t ≡ some a
      → is_gone a ≡ false
      → get_elem? (set p.threads t b) i ≡ some gone
  move_to-keeps t a b l other =
      let apart : t ≢ i = λ e.
        (let f : get_elem? p.threads i ≡ some a = rw e at l in
          let g : gone ≡ a = some-injective (sym lost ∙ f) in
          let k : true ≡ is_gone a = ap is_gone g in ground (arith, k, other)) in
      ground (arith, get_elem?-set p.threads t i b (get_elem?-lt p.threads t l), apart, lost)

  begin_query-keeps :
      (t : ℕ) (o : Option (Reader × ℕ × Bool))
      → get_elem? p.threads t ≡ some start
      → get_elem? (begin_query p t o).threads i ≡ some gone
  begin_query-keeps t none l = move_to-keeps t start leaving l refl
  begin_query-keeps t (some (r, wi, print)) l = move_to-keeps t start (query wi) l refl

  step_at-keeps :
      (q : Program) (t : ℕ) (found : Bool) (at : Option At)
      → get_elem? p.threads t ≡ at
      → step_at p t found at ≡ some q
      → get_elem? q.threads i ≡ some gone
  unfolding complete
  step_at-keeps q t found none l e = cc
  step_at-keeps q t found (some start) l e =
      subst (λ r. get_elem? r.threads i ≡ some gone) (some-injective e)
        (begin_query-keeps t (take_query p.reader) l)
  step_at-keeps q t true (some (query wi)) l e =
      subst (λ r. get_elem? r.threads i ≡ some gone) (some-injective e)
        (move_to-keeps t (query wi) start l refl)
  step_at-keeps q t false (some (query wi)) l e =
      subst (λ r. get_elem? r.threads i ≡ some gone) (some-injective e)
        (move_to-keeps t (query wi) gone l refl)
  step_at-keeps q t found (some leaving) l e =
      subst (λ r. get_elem? r.threads i ≡ some gone) (some-injective e)
        (move_to-keeps t leaving finished l refl)
  step_at-keeps q t found (some finished) l e = cc
  step_at-keeps q t found (some gone) l e = cc

run-keeps :
    (schedule : List (ℕ × Bool)) (p q : Program) (i : ℕ)
    → run schedule p ≡ some q
    → get_elem? p.threads i ≡ some gone
    → get_elem? q.threads i ≡ some gone
unfolding run step
run-keeps [] p q i e l = subst (λ r. get_elem? r.threads i ≡ some gone) (some-injective e) l
run-keeps ((t, found) ∷ schedule) p q i e l =
    let (m, first, rest) = run-next t found schedule p q e in
    run-keeps schedule m q i rest (step_at-keeps p i l m t found (get_elem? p.threads t) refl first)

-- A gone thread is not finished.
gone-unfinished :
    (ts : List At) (i : ℕ) → get_elem? ts i ≡ some gone → count is_finished ts < length ts
gone-unfinished [] i l = cc
gone-unfinished (a ∷ ts) zero l =
    let g : is_finished a ≡ false = ap is_finished (some-injective l) in
    ground (arith, g, count-le is_finished ts)
gone-unfinished (a ∷ ts) (suc i) l = ground (arith, gone-unfinished ts i l)

module _ (max n : ℕ) (max_small : max < 2 ^ 64) (few : n < 2 ^ 32) where
  -- For a workload of fewer than 2^64 queries, and at least one and fewer than 2^32 worker
  -- threads: if after a schedule no thread can take a step, then `done` is set and every index of
  -- the workload was taken, or some thread has left by the early return.
  pub run-Stuck :
      (schedule : List (ℕ × Bool)) (p : Program)
      → run schedule (initial max n) ≡ some p
      → Stuck p
      → 0 < n
      → ((p.done ≡ true) × (p.taken ≡ upto max)) ⊎ (0 < count is_gone p.threads)
  run-Stuck schedule p e s some_thread =
      let v = reached-Inv max n max_small few schedule p e in
      let c = all_ended p.threads (λ t a l. ended p t a l (s t true)) in
      elim (dec_lt 0 (count is_gone p.threads)) [
        | yes lost ↦ inr lost
        | no none_lost ↦
            let d : p.done ≡ true =
              ground (arith, v.done_when, c, none_lost, v.size, some_thread) in
            inl (d, (run-Shared max n max_small few schedule p e).read_when d)
      ]

  -- For a workload of fewer than 2^64 queries and fewer than 2^32 worker threads: if after some
  -- schedule a thread has left by the early return, because zn_cache_get gave it NULL, then `done`
  -- is not set after any continuation.
  pub run-gone :
      (schedule later : List (ℕ × Bool)) (p q : Program) (i : ℕ)
      → run schedule (initial max n) ≡ some p
      → get_elem? p.threads i ≡ some gone
      → run later p ≡ some q
      → q.done ≡ false
  run-gone schedule later p q i e l f =
      let v = run-Inv max n later p q (reached-Inv max n max_small few schedule p e) f in
      let short = gone-unfinished q.threads i (run-keeps later p q i f l) in
      ground (arith, v.done_when, v.size, short)
