-- ===== src/Concurrent/Held.antt =====
-- The locations that the threads of src/cache.c hold, as the list that the invariant of the zone
-- state manager speaks of.
use znworkload.Prelude.{
  ℕ, zero, suc, ◌≡◌, refl, ap, Option, some, none, List, [], ◌∷◌, arith, get_elem?, set, length,
  occ, Option-cases, inl, inr,
}
use znworkload.Backend.{Pair}
use znworkload.Zsm.{Zone}
use znworkload.Zsm.Invariant.{held_zones, AllHeld}
use znworkload.Zsm.Held.{without}
use znworkload.Concurrent.{Pc}
use znworkload.Concurrent.Places.{holds, hold_zone, number}

-- The locations that the threads hold, in the threads' order.
abbrev pub add_held : Option Pair → List Pair → List Pair
add_held none ps = ps
add_held (some p) ps = p ∷ ps

abbrev pub held_of : List Pc → List Pair
held_of [] = []
held_of (t ∷ ts) = add_held (holds t) (held_of ts)

abbrev past : Option Pair → ℕ → ℕ
past none k = k
past (some p) k = suc k

-- Where in that list the location of thread `i` stands.
abbrev pub held_index : ℕ → List Pc → ℕ
held_index i [] = 0
held_index zero (t ∷ ts) = 0
held_index (suc i) (t ∷ ts) = past (holds t) (held_index i ts)

pub held-number : (z : ℕ) (ts : List Pc) → occ z (held_zones (held_of ts)) ≡ number hold_zone z ts
held-number z [] = refl
held-number z (t ∷ ts) = elim (Option-cases (holds t)) [
  | inl q ↦ ground (arith, held-number z ts, q)
  | inr (r, q) ↦ ground (arith, held-number z ts, q)
]

module _ (t : Pc) where
  pub held_of-same :
      (ts : List Pc) (i : ℕ) {old : Pc}
      → get_elem? ts i ≡ some old
      → holds t ≡ holds old
      → held_of (set ts i t) ≡ held_of ts
  held_of-same [] i e same = refl
  held_of-same (x ∷ xs) zero e same = ground (arith, same)
  held_of-same (x ∷ xs) (suc i) e same = ap (add_held (holds x)) (held_of-same xs i e same)

pub held_of-get :
    (ts : List Pc) (i : ℕ) (p : Pair) {old : Pc}
    → get_elem? ts i ≡ some old
    → holds old ≡ some p
    → get_elem? (held_of ts) (held_index i ts) ≡ some p
held_of-get [] i p e h = cc
held_of-get (x ∷ xs) zero p e h = ground (arith, h)
held_of-get (x ∷ xs) (suc i) p e h = elim (Option-cases (holds x)) [
  | inl q ↦ rw q (held_of-get xs i p e h)
  | inr (r, q) ↦ rw q (held_of-get xs i p e h)
]

-- A thread that gives its location back.
pub held_of-without :
    (ts : List Pc) (i : ℕ) (p : Pair) (t : Pc) {old : Pc}
    → get_elem? ts i ≡ some old
    → holds old ≡ some p
    → holds t ≡ none
    → held_of (set ts i t) ≡ without (held_index i ts) (held_of ts)
unfolding without
held_of-without [] i p t e h n = refl
held_of-without (x ∷ xs) zero p t e h n = ground (arith, h, n)
held_of-without (x ∷ xs) (suc i) p t e h n = elim (Option-cases (holds x)) [
  | inl q ↦ rw q (held_of-without xs i p t e h n)
  | inr (r, q) ↦ rw q (ap (◌∷◌ r) (held_of-without xs i p t e h n))
]

-- A thread that is handed a location: as if it were added in front.
pub held_of-length :
    (ts : List Pc) (i : ℕ) (p : Pair) (t : Pc) {old : Pc}
    → get_elem? ts i ≡ some old
    → holds old ≡ none
    → holds t ≡ some p
    → length (held_of (set ts i t)) ≡ suc (length (held_of ts))
held_of-length [] i p t e h n = cc
held_of-length (x ∷ xs) zero p t e h n = ground (arith, h, n)
held_of-length (x ∷ xs) (suc i) p t e h n = elim (Option-cases (holds x)) [
  | inl q ↦ rw q (held_of-length xs i p t e h n)
  | inr (r, q) ↦ rw q (ap suc (held_of-length xs i p t e h n))
]

pub held_of-all :
    (zones : List Zone) (max : ℕ) (ts : List Pc) (i : ℕ) (p : Pair) (t : Pc) {old : Pc}
    → get_elem? ts i ≡ some old
    → holds old ≡ none
    → holds t ≡ some p
    → AllHeld zones max (p ∷ held_of ts)
    → AllHeld zones max (held_of (set ts i t))
held_of-all zones max [] i p t e h n a = cc
held_of-all zones max (x ∷ xs) zero p t e h n a =
    let q : holds x ≡ none = ground (arith, h) in
    let b : AllHeld zones max (p ∷ held_of xs) = (rw q at a) in rw n b
held_of-all zones max (x ∷ xs) (suc i) p t e h n a = elim (Option-cases (holds x)) [
  | inl q ↦ rw q (held_of-all zones max xs i p t e h n (a.0, (rw q at a.1)))
  | inr (r, q) ↦
      let b : AllHeld zones max (r ∷ held_of xs) = (rw q at a.1) in
      rw q (b.0, held_of-all zones max xs i p t e h n (a.0, b.1))
]
