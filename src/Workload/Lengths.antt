-- ===== src/Workload/Lengths.antt =====
-- How long a run of the worker threads can be.
use znworkload.Prelude.{
  ℕ, zero, suc, ◌+◌, ◌*◌, ◌-◌, ◌<◌, ◌≤◌, ◌≡◌, ◌^◌, refl, subst, Bool, true, false, Option, some,
  none, List, [], ◌∷◌, leb, arith, length, get_elem?, set, dec_lt, some-injective, u64,
}
use znworkload.Workload.{
  Program, At, start, query, leaving, finished, gone, take_query, begin_query, complete, step,
  step_at, run, waiting, initial,
}
use znworkload.Workload.Threads.{Inv, initial-Inv, step-Inv, run-next}

-- What is left of the work: two steps for each index, and those of each thread.
abbrev steps_of : At → ℕ
steps_of start = 2
steps_of (query i) = 3
steps_of leaving = 1
steps_of finished = 0
steps_of gone = 0

abbrev steps : List At → ℕ
steps [] = 0
steps (a ∷ ts) = steps_of a + steps ts

abbrev work_left : Program → ℕ
work_left p = 2 * (p.reader.workload_max - p.reader.workload_index) + steps p.threads

steps-set :
    (ts : List At) (t : ℕ) (b : At) {a : At}
    → get_elem? ts t ≡ some a
    → steps (set ts t b) + steps_of a ≡ steps ts + steps_of b
steps-set [] t b e = cc
steps-set (x ∷ ts) zero b e = let f = some-injective e in ground (arith, f)
steps-set (x ∷ ts) (suc t) b e = omega (arith, steps-set ts t b e)

steps-waiting : (n : ℕ) → steps (waiting n) ≡ 2 * n
steps-waiting zero = refl
steps-waiting (suc n) = omega (arith, steps-waiting n)

begin-left :
    (max n : ℕ) (p : Program) (t : ℕ)
    → Inv max n p
    → get_elem? p.threads t ≡ some start
    → work_left (begin_query p t (take_query p.reader)) < work_left p
unfolding take_query
begin-left max n p t v l = elim (dec_lt p.reader.workload_index max) [
  | yes more ↦
      let some_left : leb p.reader.workload_max p.reader.workload_index ≡ false =
        ground (arith, more, v.same_max) in
      let wi = p.reader.workload_index in
      let next : u64 (wi + 1) ≡ wi + 1 = omega (arith, more, v.max_small) in
      rw (some_left, next) (omega (arith, more, v.same_max, steps-set p.threads t (query wi) l))
  | no all ↦
      let none_left : leb p.reader.workload_max p.reader.workload_index ≡ true =
        ground (arith, all, v.same_max) in
      rw none_left (omega (arith, steps-set p.threads t leaving l))
]

step_at-left :
    (max n : ℕ) (p q : Program) (t : ℕ) (found : Bool) (at : Option At)
    → Inv max n p
    → get_elem? p.threads t ≡ at
    → step_at p t found at ≡ some q
    → work_left q < work_left p
unfolding complete
step_at-left max n p q t found none v l e = cc
step_at-left max n p q t found (some start) v l e =
    subst (λ r. work_left r < work_left p) (some-injective e) (begin-left max n p t v l)
step_at-left max n p q t true (some (query wi)) v l e =
    subst (λ r. work_left r < work_left p) (some-injective e)
      (omega (arith, steps-set p.threads t start l))
step_at-left max n p q t false (some (query wi)) v l e =
    subst (λ r. work_left r < work_left p) (some-injective e)
      (omega (arith, steps-set p.threads t gone l))
step_at-left max n p q t found (some leaving) v l e =
    subst (λ r. work_left r < work_left p) (some-injective e)
      (omega (arith, steps-set p.threads t finished l))
step_at-left max n p q t found (some finished) v l e = cc
step_at-left max n p q t found (some gone) v l e = cc

run-left :
    (max n : ℕ) (schedule : List (ℕ × Bool)) (p q : Program)
    → Inv max n p
    → run schedule p ≡ some q
    → length schedule + work_left q ≤ work_left p
unfolding run step
run-left max n [] p q v e =
    subst (λ r. 0 + work_left r ≤ work_left p) (some-injective e) (omega arith)
run-left max n ((t, found) ∷ schedule) p q v e =
    let (m, first, rest) = run-next t found schedule p q e in
    let less = step_at-left max n p m t found (get_elem? p.threads t) v refl first in
    omega (arith, less, run-left max n schedule m q (step-Inv max n p m t found v first) rest)

module _ (max n : ℕ) (max_small : max < 2 ^ 64) (few : n < 2 ^ 32) where
  -- For a workload of fewer than 2^64 queries and fewer than 2^32 worker threads, a schedule that
  -- they can follow has at most twice as many steps as there are queries and threads together.
  pub run-length :
      (schedule : List (ℕ × Bool)) (p : Program)
      → run schedule (initial max n) ≡ some p
      → length schedule ≤ 2 * max + 2 * n
  unfolding initial
  run-length schedule p e =
      let l = run-left max n schedule (initial max n) p (initial-Inv max n max_small few) e in
      omega (arith, l, steps-waiting n)
