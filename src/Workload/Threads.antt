-- ===== src/Workload/Threads.antt =====
-- The worker threads of src/zncache.c under every schedule: the indices that they take.
use znworkload.Prelude.{
  ℕ, zero, suc, ◌+◌, ◌<◌, ◌≤◌, ◌≡◌, ◌^◌, refl, ap, sym, subst, ◌∙◌, Bool, true, false, ◌&&◌, Option,
  some, none, List, [], ◌∷◌, ◌++◌, ◌==◌, ltb, if◌then◌else◌, arith, length, get_elem?, set, count,
  count-set, count-le, length-set, dec_lt, some-injective, u32, u64, leb,
}
use znworkload.Workload.{
  Program, At, start, query, leaving, finished, gone, take_query, begin_query, complete, move_to,
  step, step_at, run, waiting, initial,
}

abbrev pub upto : ℕ → List ℕ
upto zero = []
upto (suc n) = upto n ++ n ∷ []

abbrev pub is_finished : At → Bool
is_finished finished = true
is_finished _ = false

abbrev pub is_gone : At → Bool
is_gone gone = true
is_gone _ = false

-- Whether a thread is at work on a query.
abbrev pub works_on : ℕ → At → Bool
works_on wi (query i) = i == wi
works_on wi _ = false

-- Whether a thread has found the workload read.
abbrev pub is_through : At → Bool
is_through leaving = true
is_through finished = true
is_through _ = false

pub record Inv (max n : ℕ) (p : Program) : Type 0 where
  pub size : length p.threads ≡ n
  pub same_max : p.reader.workload_max ≡ max
  pub index_le : p.reader.workload_index ≤ max
  pub taken_in_order : p.taken ≡ upto p.reader.workload_index
  pub one_each :
      (wi : ℕ) → count (works_on wi) p.threads ≤ (if ltb wi p.reader.workload_index then 1 else 0)
  pub through : 0 < count is_through p.threads → p.reader.workload_index ≡ max
  pub completed : p.nr_threads_completed ≡ count is_finished p.threads
  pub done_when : p.done ≡ (ltb 0 n && (count is_finished p.threads == n))
  pub max_small : max < 2 ^ 64
  pub few : n < 2 ^ 32

length-waiting : (n : ℕ) → length (waiting n) ≡ n
length-waiting zero = refl
length-waiting (suc n) = ap suc (length-waiting n)

-- A test that no waiting thread passes.
count-waiting : (f : At → Bool) (n : ℕ) → f start ≡ false → count f (waiting n) ≡ 0
count-waiting f zero e = refl
count-waiting f (suc n) e = ground (arith, count-waiting f n, e)

pub initial-Inv : (max n : ℕ) → max < 2 ^ 64 → n < 2 ^ 32 → Inv max n (initial max n)
unfolding initial
initial-Inv max n small few = record {
  size = length-waiting n;
  same_max = refl;
  index_le = omega arith;
  taken_in_order = refl;
  one_each = λ wi. ground (arith, count-waiting (works_on wi) n);
  through = λ h. absurd (ground (arith, h, count-waiting is_through n));
  completed = sym (count-waiting is_finished n refl);
  done_when = ground (arith, count-waiting is_finished n);
  max_small = small;
  few = few;
}

module _ (max n : ℕ) (p : Program) (v : Inv max n p) (t : ℕ) (a : At)
    (there : get_elem? p.threads t ≡ some a) where
  -- How a move changes the number of threads that pass a test.
  counts :
      (f : At → Bool) (b : At)
      → count f (set p.threads t b) + (if f a then 1 else 0)
        ≡ count f p.threads + (if f b then 1 else 0)
  counts f b = count-set f p.threads t b there

  same_finished :
      (b : At)
      → is_finished a ≡ false
      → is_finished b ≡ false
      → count is_finished p.threads ≡ count is_finished (set p.threads t b)
  same_finished b fa fb = ground (arith, counts is_finished b, fa, fb)

  same_done :
      (b : At)
      → is_finished a ≡ false
      → is_finished b ≡ false
      → p.done ≡ (ltb 0 n && (count is_finished (set p.threads t b) == n))
  same_done b fa fb = v.done_when ∙ ap (λ k. ltb 0 n && (k == n)) (same_finished b fa fb)

  -- A step of a thread between its critical sections.
  moved-Inv :
      (b : At)
      → is_finished a ≡ false
      → is_finished b ≡ false
      → is_through b ≡ false
      → ((wi : ℕ) → works_on wi b ≡ false)
      → Inv max n (move_to p t b)
  moved-Inv b fa fb th wb = record {
    size = length-set p.threads t b ∙ v.size;
    same_max = v.same_max;
    index_le = v.index_le;
    taken_in_order = v.taken_in_order;
    one_each = λ wi. ground (arith, v.one_each wi, counts (works_on wi) b, wb wi);
    through = λ h. v.through (ground (arith, h, counts is_through b, th));
    completed = v.completed ∙ same_finished b fa fb;
    done_when = same_done b fa fb;
    max_small = v.max_small;
    few = v.few;
  }

  -- The first critical section.
  begin-Inv : a ≡ start → Inv max n (begin_query p t (take_query p.reader))
  unfolding take_query
  begin-Inv at_start = elim (dec_lt p.reader.workload_index max) [
    | yes more ↦
        let some_left : leb p.reader.workload_max p.reader.workload_index ≡ false =
          ground (arith, more, v.same_max) in
        let wi = p.reader.workload_index in
        let next : u64 (wi + 1) ≡ suc wi = omega (arith, more, v.max_small) in
        rw (some_left, next)
          (record {
            size = length-set p.threads t (query wi) ∙ v.size;
            same_max = v.same_max;
            index_le = omega (arith, more);
            taken_in_order = ap (λ q. q ++ wi ∷ []) v.taken_in_order;
            one_each = λ i.
                ground
                  (arith, v.one_each i, counts (works_on i) (query wi), ap (works_on i) at_start);
            through = λ h. absurd (
                ground (
                  arith,
                  v.through,
                  more,
                  counts is_through (query wi),
                  ap is_through at_start,
                  h,
                ));
            completed = v.completed ∙ same_finished (query wi) (ap is_finished at_start) refl;
            done_when = same_done (query wi) (ap is_finished at_start) refl;
            max_small = v.max_small;
            few = v.few;
          })
    | no all ↦
        let none_left : leb p.reader.workload_max p.reader.workload_index ≡ true =
          ground (arith, all, v.same_max) in
        rw none_left (record {
          size = length-set p.threads t leaving ∙ v.size;
          same_max = v.same_max;
          index_le = v.index_le;
          taken_in_order = v.taken_in_order;
          one_each = λ i.
              ground (arith, v.one_each i, counts (works_on i) leaving, ap (works_on i) at_start);
          through = λ h. omega (arith, all, v.index_le);
          completed = v.completed ∙ same_finished leaving (ap is_finished at_start) refl;
          done_when = same_done leaving (ap is_finished at_start) refl;
          max_small = v.max_small;
          few = v.few;
        })
  ]

  complete-Inv : a ≡ leaving → Inv max n (complete p t)
  unfolding complete
  complete-Inv at_end =
      let c = counts is_finished finished in
      let was : is_finished a ≡ false = ap is_finished at_end in
      let l = count-le is_finished (set p.threads t finished) in
      let r = length-set p.threads t finished in
      let one : u32 (p.nr_threads_completed + 1) ≡ count is_finished (set p.threads t finished) =
        ground (arith, c, was, v.completed, l, r, v.size, v.few) in
      record {
        size = length-set p.threads t finished ∙ v.size;
        same_max = v.same_max;
        index_le = v.index_le;
        taken_in_order = v.taken_in_order;
        one_each =
            λ i. ground (arith, v.one_each i, counts (works_on i) finished, ap (works_on i) at_end);
        through =
            λ h. v.through (ground (arith, counts is_through finished, ap is_through at_end, h));
        completed = one;
        done_when = rw one (ground (arith, v.done_when, c, was, l, r, v.size));
        max_small = v.max_small;
        few = v.few;
      }

step_at-Inv :
    (max n : ℕ) (p q : Program) (t : ℕ) (found : Bool) (at : Option At)
    → Inv max n p
    → get_elem? p.threads t ≡ at
    → step_at p t found at ≡ some q
    → Inv max n q
step_at-Inv max n p q t found none v l e = cc
step_at-Inv max n p q t found (some start) v l e =
    subst (Inv max n) (some-injective e) (begin-Inv max n p v t start l refl)
step_at-Inv max n p q t true (some (query wi)) v l e =
    subst (Inv max n) (some-injective e)
      (moved-Inv max n p v t (query wi) l start refl refl refl (λ i. refl))
step_at-Inv max n p q t false (some (query wi)) v l e =
    subst (Inv max n) (some-injective e)
      (moved-Inv max n p v t (query wi) l gone refl refl refl (λ i. refl))
step_at-Inv max n p q t found (some leaving) v l e =
    subst (Inv max n) (some-injective e) (complete-Inv max n p v t leaving l refl)
step_at-Inv max n p q t found (some finished) v l e = cc
step_at-Inv max n p q t found (some gone) v l e = cc

pub step-Inv :
    (max n : ℕ) (p q : Program) (t : ℕ) (found : Bool)
    → Inv max n p
    → step p t found ≡ some q
    → Inv max n q
unfolding step
step-Inv max n p q t found v e = step_at-Inv max n p q t found (get_elem? p.threads t) v refl e

-- A run of one step more.
pub run-next :
    (t : ℕ) (found : Bool) (schedule : List (ℕ × Bool)) (p r : Program)
    → run ((t, found) ∷ schedule) p ≡ some r
    → (q : Program) × (step p t found ≡ some q) × (run schedule q ≡ some r)
unfolding run
run-next t found schedule p r e = by_step (step p t found) refl e
  where
    by_step :
        (o : Option Program)
        → step p t found ≡ o
        → (elim o [ none ↦ none | some q ↦ run schedule q ]) ≡ some r
        → (q : Program) × (step p t found ≡ some q) × (run schedule q ≡ some r)
    by_step none l f = cc
    by_step (some q) l f = (q, l, f)

pub run-Inv :
    (max n : ℕ) (schedule : List (ℕ × Bool)) (p q : Program)
    → Inv max n p
    → run schedule p ≡ some q
    → Inv max n q
unfolding run
run-Inv max n [] p q v e = subst (Inv max n) (some-injective e) v
run-Inv max n ((t, found) ∷ schedule) p q v e =
    let (m, first, rest) = run-next t found schedule p q e in
    run-Inv max n schedule m q (step-Inv max n p m t found v first) rest
