-- ===== src/Concurrent/Safe.antt =====
-- Every schedule of the threads of src/cache.c in which no zone is cleared at two wrong moments.
use znworkload.Prelude.{
  ℕ, ◌<◌, ◌≡◌, ◌≢◌, ◌^◌, refl, Bool, true, ◌&&◌, Option, some, none, List, [], ◌∷◌, arith,
  get_elem?, ◌==◌, inl, inr, Option-cases, ℕ_discrete, ◌≤◌,
}
use znworkload.Run.{Run, ok, Returns, Returns-ok}
use znworkload.Backend.{Pair}
use znworkload.Zsm.{Zbd}
use znworkload.Cachemap.View.{State, view}
use znworkload.Chunks.{lays_apart, Io}
use znworkload.Concurrent.{
  System, Chunk, Pc, idle, finding, copying, reading, promoting, leaving, done, locating, writing,
  returning, noting, publishing, failing, undoing, counting, choosing, clearing, waiting, resetting,
  Event, get, fg_evict, go_on, called, started, thread_step, step, run,
}
use znworkload.Concurrent.Places.{
  holds, copies, publishes, fetches, reads, resets, number, number-get, number-two,
}
use znworkload.Concurrent.Invariant.{Inv, Own, Relies, hands, writers_of}
use znworkload.Concurrent.Reader.{moves-Inv}
use znworkload.Concurrent.Lookup.{finding-Inv}
use znworkload.Concurrent.Hit.{copying-Inv, reading-Inv, promoting-Inv, leaving-Inv}
use znworkload.Concurrent.Writer.{locating-Inv, failing-Inv}
use znworkload.Concurrent.Store.{writing-Inv, alone}
use znworkload.Concurrent.Give.{Obeys, returning-Inv}
use znworkload.Concurrent.Note.{noting-Inv}
use znworkload.Concurrent.Publish.{publishing-Inv, undoing-Inv}
use znworkload.Concurrent.Evictor.{counting-Inv, choosing-Inv, waiting-Inv}
use znworkload.Concurrent.Clearing.{clearing-Inv}
use znworkload.Concurrent.Resetting.{resetting-Inv}
use znworkload.Concurrent.Intact.{AllWhole, run-intact}

-- IDs are below 2^31, and the device finishes and resets the zones that it is asked to.
abbrev pub Allowed : Event → Type 0
Allowed (get i id) = id < 2 ^ 31
Allowed (fg_evict i) = Unit {0}
Allowed (go_on i io zbd) = Obeys zbd

abbrev pub AllAllowed : List Event → Type 0
AllAllowed [] = Unit {0}
AllAllowed (e ∷ es) = Allowed e × AllAllowed es

-- A zone is not cleared while a thread has looked up a result in it and not yet copied it, nor
-- while a thread that wrote to it has not yet inserted its entry.
abbrev pub calm_at : System → Option Pc → Bool
calm_at s (some (clearing r k z)) =
    number copies z s.threads == 0 && number publishes z s.threads == 0
calm_at s _ = true

abbrev pub calm : System → Event → Bool
calm s (go_on i io zbd) = calm_at s (get_elem? s.threads i)
calm s _ = true

abbrev after : Run System → (System → Bool) → Bool
after (ok t) f = f t
after _ f = true

-- Every step of the schedule is calm.
unfoldable pub undisturbed : System → List Event → Bool
undisturbed s [] = true
undisturbed s (e ∷ es) = calm s e && after (step s e) (λ t. undisturbed t es)

pub thread_step-Inv :
    (s : System) (i : ℕ) (io : Io) (zbd : Zbd) (t : Pc)
    → Obeys zbd
    → Inv s
    → get_elem? s.threads i ≡ some t
    → calm_at s (some t) ≡ true
    → Returns Inv (thread_step s i io zbd t)
unfolding thread_step
thread_step-Inv s i io zbd idle o v here c = v
thread_step-Inv s i io zbd (finding id) o v here c = finding-Inv s i id v here io
thread_step-Inv s i io zbd (copying id a p) o v here c = copying-Inv s i v io id a p here
thread_step-Inv s i io zbd (reading id p) o v here c = reading-Inv s i v io id p here
thread_step-Inv s i io zbd (promoting id p d) o v here c = promoting-Inv s i v io id p d here
thread_step-Inv s i io zbd (leaving id p d) o v here c = leaving-Inv s i v io id p d here
thread_step-Inv s i io zbd (done id d) o v here c = v
thread_step-Inv s i io zbd (locating id) o v here c = locating-Inv s i v id here zbd io
thread_step-Inv s i io zbd (writing id p) o v here c = writing-Inv s i v io zbd id p here
thread_step-Inv s i io zbd (returning id p) o v here c = returning-Inv s i v id p here zbd o io
thread_step-Inv s i io zbd (noting id p) o v here c = noting-Inv s i v id p here io zbd
thread_step-Inv s i io zbd (publishing id p) o v here c = publishing-Inv s i v id p here io zbd
thread_step-Inv s i io zbd (failing id p) o v here c = failing-Inv s i v id p io zbd here
thread_step-Inv s i io zbd (undoing id) o v here c = undoing-Inv s i v id here io zbd
thread_step-Inv s i io zbd (counting r) o v here c = counting-Inv s i v r zbd here
thread_step-Inv s i io zbd (choosing r k) o v here c = choosing-Inv s i v r k zbd here
thread_step-Inv s i io zbd (clearing r k z) o v here c =
    clearing-Inv s i v r k z here zbd (ground (arith, c)) (ground (arith, c))
thread_step-Inv s i io zbd (waiting r k z) o v here c = waiting-Inv s i v r k z here zbd
thread_step-Inv s i io zbd (resetting r k z) o v here c = resetting-Inv s i v r k z here zbd o

-- A thread that has no call takes one; the others go on with theirs.
called-hands :
    (max : ℕ) (old t : Pc) → hands max t ≡ hands max idle → hands max (called old t) ≡ hands max old
called-hands max idle t e = e
called-hands max (done id d) t e = e
called-hands max _ t e = refl

called-Relies :
    (s : System) (old t : Pc)
    → Relies s.cache_map s.contents s.zone_state t
    → Relies s.cache_map s.contents s.zone_state old
    → Relies s.cache_map s.contents s.zone_state (called old t)
called-Relies s idle t r q = r
called-Relies s (done id d) t r q = r
called-Relies s _ t r q = q

started-Inv :
    (s : System) (i : ℕ) (t : Pc)
    → hands s.zone_state.max_zone_chunks t ≡ hands s.zone_state.max_zone_chunks idle
    → Relies s.cache_map s.contents s.zone_state t
    → Inv s
    → Inv (started s i t (get_elem? s.threads i))
started-Inv s i t e r v = elim (Option-cases (get_elem? s.threads i)) [
  | inl none_there ↦ rw none_there v
  | inr (old, here) ↦ rw here (
      moves-Inv s i v old (called old t) here (called-hands s.zone_state.max_zone_chunks old t e)
        (called-Relies s old t r (v.chunks.relies i old here)))
]

step-Inv : (s : System) (e : Event) → Allowed e → calm s e ≡ true → Inv s → Returns Inv (step s e)
unfolding step
step-Inv s (get i id) a c v = started-Inv s i (finding id) refl a v
step-Inv s (fg_evict i) a c v = started-Inv s i (counting none) refl tt v
step-Inv s (go_on i io zbd) a c v = elim (Option-cases (get_elem? s.threads i)) [
  | inl none_there ↦ rw (none_there, step) v
  | inr (t, here) ↦ rw (here, step) (thread_step-Inv s i io zbd t a v here (rw here at c))
]

pub run-Inv :
    (s : System) (es : List Event)
    → AllAllowed es
    → undisturbed s es ≡ true
    → Inv s
    → Returns Inv (run s es)
unfolding run undisturbed
run-Inv s [] a u v = v
run-Inv s (e ∷ es) a u v =
    let (t, ran, w) = Returns-ok Inv (step s e) (step-Inv s e a.0 (ground (arith, u)) v) in
    rw (ran, run) (run-Inv t es a.1 (ground (arith, ran, u)) w)

-- What every thread may count on.
pub record Protected (s : System) : Type 0 where
  pub own_chunk : (i id : ℕ) (d : Chunk) → get_elem? s.threads i ≡ some (done id d) → Own id d
  pub one_fetches :
      (i j id : ℕ) (t u : Pc)
      → get_elem? s.threads i ≡ some t
      → get_elem? s.threads j ≡ some u
      → fetches t ≡ some id
      → fetches u ≡ some id
      → i ≡ j
  pub one_holds :
      (i j : ℕ) (t u : Pc) (p q : Pair)
      → get_elem? s.threads i ≡ some t
      → get_elem? s.threads j ≡ some u
      → holds t ≡ some p
      → holds u ≡ some q
      → p.zone ≡ q.zone
      → i ≡ j
  pub not_read :
      (i j : ℕ) (t u : Pc) (z : ℕ)
      → get_elem? s.threads i ≡ some t
      → get_elem? s.threads j ≡ some u
      → resets t ≡ some z
      → reads u ≢ some z

writers-le : (w : State) → writers_of w ≤ 1
writers-le State.absent = omega arith
writers-le State.writing = omega arith
writers-le (State.at p) = omega arith

Inv-Protected : (s : System) → Inv s → s.contents.intact ≡ true → Protected s
Inv-Protected s v intact = record {
  own_chunk = λ i id d e. v.chunks.relies i (done id d) e intact;
  one_fetches = λ i j id t u e f h g. elim (ℕ_discrete i j) [
    | yes same ↦ same
    | no n ↦ absurd (
        omega (
          arith,
          writers-le (view s.cache_map id),
          v.claims.writers id,
          number-two fetches id s.threads i j t u e f n (ground (arith, h)) (ground (arith, g)),
        ))
  ];
  one_holds = λ i j t u p q e f h g same. elim (ℕ_discrete i j) [
    | yes equal ↦ equal
    | no n ↦ absurd (alone s j v q f g i t p n e h same)
  ];
  not_read = λ i j t u z e f h g. ground (
    arith,
    v.clears.quiet z,
    number-get resets z s.threads i t e (ground (arith, h)),
    number-get reads z s.threads j u f (ground (arith, g)),
  );
}

-- If the invariant holds at the start (as it does before the first call), no write has gone past the
-- end of its chunk, the chunks lie apart, no pwrite that succeeds is short, the IDs
-- that are asked for are below 2^31, the device finishes and resets every zone that it is asked to, and no zone
-- is cleared from the map while a thread has looked up a result there and not yet copied it, or
-- has written a chunk there and not yet inserted it, then a schedule of any number of threads,
-- with any results of reads and writes and any refusals to open a zone, returns without a failed
-- assertion or a crash. After it, a call that has ended gave NULL or the chunk of the ID that it
-- asked for; no two threads fetch the same ID; no two threads hold locations in the same zone; and
-- no thread counts as a reader of a zone that an evictor is about to reset.
pub run-Protected :
    (s : System) (es : List Event)
    → AllAllowed es
    → undisturbed s es ≡ true
    → Inv s
    → lays_apart s.layout ≡ true
    → AllWhole es
    → s.contents.intact ≡ true
    → Returns Protected (run s es)
run-Protected s es a u v apart whole intact =
    let (t, ran, w) = Returns-ok Inv (run s es) (run-Inv s es a u v) in
    let kept : t.contents.intact ≡ true = rw ran at (run-intact s es apart whole intact) in
    rw ran (Inv-Protected t w kept)
