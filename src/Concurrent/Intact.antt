-- ===== src/Concurrent/Intact.antt =====
-- Writes that stay in their chunks, in a schedule of the threads of src/cache.c.
use znworkload.Prelude.{
  ℕ, zero, suc, ◌≡◌, ◌==◌, refl, true, Option, some, none, List, [], ◌∷◌, arith, get_elem?,
  Option-cases, inl, inr,
}
use znworkload.Run.{Run, ok, abort, crash, ◌>>=◌, assert}
use znworkload.Zsm.{Zbd, get_active_zone, return_active_zone, failed_to_write, evict_zone}
use znworkload.Cachemap.{
  cachemap_find, read_result, cachemap_insert, cachemap_fail, cachemap_clear_zone,
}
use znworkload.Promotional.{read, write, promotional_update, get_zone_to_evict}
use znworkload.Chunks.{lays_apart, Io}
use znworkload.Concurrent.{
  System, Pc, idle, finding, copying, reading, promoting, leaving, done, locating, writing,
  returning, noting, publishing, failing, undoing, counting, choosing, clearing, waiting, resetting,
  Event, get, fg_evict, go_on, started, reader_step, writer_step, evictor_step, thread_step, step,
  run,
}

-- No pwrite of the step is short.
abbrev pub Whole : Event → Type 0
Whole (get i id) = Unit {0}
Whole (fg_evict i) = Unit {0}
Whole (go_on i io zbd) = io.whole ≡ true

abbrev pub AllWhole : List Event → Type 0
AllWhole [] = Unit {0}
AllWhole (e ∷ es) = Whole e × AllWhole es

-- The layout stays, and no write has gone past the end of its chunk if none had before.
abbrev pub Steady : System → System → Type 0
Steady s t = (t.layout ≡ s.layout) × (s.contents.intact ≡ true → t.contents.intact ≡ true)

-- What the call returns, if it does, satisfies `P`.
abbrev pub IfReturns : {A : Type 0} → (A → Type 0) → Run A → Type 0
IfReturns P (ok a) = P a
IfReturns P abort = Unit {0}
IfReturns P crash = Unit {0}

IfReturns-then :
    {A B : Type 0} (P : A → Type 0) (Q : B → Type 0) (f : A → Run B) (r : Run A)
    → IfReturns P r
    → ((a : A) → P a → IfReturns Q (f a))
    → IfReturns Q (r >>= f)
IfReturns-then P Q f (ok a) p h = h a p
IfReturns-then P Q f abort p h = tt
IfReturns-then P Q f crash p h = tt

IfReturns-bind :
    {A B : Type 0} (P : B → Type 0) (f : A → Run B) (r : Run A)
    → ((a : A) → IfReturns P (f a))
    → IfReturns P (r >>= f)
IfReturns-bind P f (ok a) h = h a
IfReturns-bind P f abort h = tt
IfReturns-bind P f crash h = tt

module _ (s : System) (i : ℕ) (io : Io) (zbd : Zbd) where
  abbrev still : Steady s s
  still = (refl, λ h. h)

  thread_step-Steady :
      lays_apart s.layout ≡ true
      → io.whole ≡ true
      → (t : Pc) → IfReturns (Steady s) (thread_step s i io zbd t)
  unfolding thread_step reader_step writer_step evictor_step
  thread_step-Steady apart whole idle = still
  thread_step-Steady apart whole (finding id) =
      IfReturns-bind (Steady s) _ (cachemap_find s.cache_map id) (λ x. still)
  thread_step-Steady apart whole (copying id a p) =
      IfReturns-bind (Steady s) _ (read_result s.cache_map a) (λ x. still)
  thread_step-Steady apart whole (reading id p) = still
  thread_step-Steady apart whole (promoting id p d) =
      IfReturns-bind (Steady s) _ (promotional_update s.eviction_policy p read) (λ x. still)
  thread_step-Steady apart whole (leaving id p d) = still
  thread_step-Steady apart whole (done id d) = still
  thread_step-Steady apart whole (locating id) =
      IfReturns-bind (Steady s) _ (get_active_zone zbd s.zone_state) (λ x. still)
  thread_step-Steady apart whole (writing id p) = (refl, λ h. ground (arith, h, apart, whole))
  thread_step-Steady apart whole (returning id p) =
      IfReturns-bind (Steady s) _ (return_active_zone zbd s.zone_state p) (λ x. still)
  thread_step-Steady apart whole (noting id p) =
      IfReturns-bind (Steady s) _ (promotional_update s.eviction_policy p write) (λ x. still)
  thread_step-Steady apart whole (publishing id p) =
      IfReturns-bind (Steady s) _ (cachemap_insert s.cache_map id p) (λ x. still)
  thread_step-Steady apart whole (failing id p) =
      IfReturns-bind (Steady s) _ (failed_to_write s.zone_state p) (λ x. still)
  thread_step-Steady apart whole (undoing id) =
      IfReturns-bind (Steady s) _ (cachemap_fail s.cache_map id) (λ x. still)
  thread_step-Steady apart whole (counting r) = still
  thread_step-Steady apart whole (choosing r zero) = still
  thread_step-Steady apart whole (choosing r (suc k)) =
      IfReturns-bind (Steady s) _ (get_zone_to_evict s.eviction_policy) (λ x. still)
  thread_step-Steady apart whole (clearing r k z) =
      IfReturns-bind (Steady s) _ (cachemap_clear_zone s.cache_map z) (λ x. still)
  thread_step-Steady apart whole (waiting r k z) = still
  thread_step-Steady apart whole (resetting r k z) =
      IfReturns-bind (Steady s) _ (evict_zone zbd s.zone_state z)
        (λ x. IfReturns-bind (Steady s) _ (assert (x.1 == 0)) (λ y. still))

started-Steady : (s : System) (i : ℕ) (t : Pc) (old : Option Pc) → Steady s (started s i t old)
started-Steady s i t none = (refl, λ h. h)
started-Steady s i t (some old) = (refl, λ h. h)

step-Steady :
    (s : System) (e : Event)
    → lays_apart s.layout ≡ true
    → Whole e
    → IfReturns (Steady s) (step s e)
unfolding step
step-Steady s (get i id) apart whole = started-Steady s i (finding id) (get_elem? s.threads i)
step-Steady s (fg_evict i) apart whole = started-Steady s i (counting none) (get_elem? s.threads i)
step-Steady s (go_on i io zbd) apart whole = elim (Option-cases (get_elem? s.threads i)) [
  | inl none_there ↦ rw (none_there, step) (refl, λ h. h)
  | inr (t, here) ↦ rw (here, step) (thread_step-Steady s i io zbd apart whole t)
]

-- If the chunks lie apart and no pwrite of the schedule is short, every write stays in its chunk.
pub run-intact :
    (s : System) (es : List Event)
    → lays_apart s.layout ≡ true
    → AllWhole es
    → s.contents.intact ≡ true
    → IfReturns (λ t. t.contents.intact ≡ true) (run s es)
unfolding run
run-intact s [] apart whole intact = intact
run-intact s (e ∷ es) apart whole intact =
    IfReturns-then (Steady s) (λ t. t.contents.intact ≡ true) (λ t. run t es) (step s e)
      (step-Steady s e apart whole.0)
      (λ t h. run-intact t es (ground (arith, h.0, apart)) whole.1 (h.1 intact))
