-- ===== src/Concurrent/Places.antt =====
-- What a thread has in hand at each place in src/cache.c, and how many threads have it.
use znworkload.Prelude.{
  ℕ, zero, suc, ◌+◌, ◌≤◌, ◌<◌, ◌≡◌, ◌≢◌, refl, ap, Bool, true, false, Option, some, none, List, [],
  ◌∷◌, ◌==◌, if◌then◌else◌, arith, get_elem?, set, count, count-set,
}
use znworkload.Backend.{Pair}
use znworkload.Concurrent.{
  Pc, copying, reading, promoting, leaving, locating, writing, returning, noting, publishing,
  failing, undoing, counting, choosing, clearing, waiting, resetting,
}

-- The ID that the thread fetches for the others: it made the entry that says so.
abbrev pub fetches : Pc → Option ℕ
fetches (locating id) = some id
fetches (writing id p) = some id
fetches (returning id p) = some id
fetches (noting id p) = some id
fetches (publishing id p) = some id
fetches (failing id p) = some id
fetches (undoing id) = some id
fetches (counting r) = r
fetches (choosing r k) = r
fetches (clearing r k z) = r
fetches (waiting r k z) = r
fetches (resetting r k z) = r
fetches _ = none

-- The zone among whose readers the thread is counted.
abbrev pub reads : Pc → Option ℕ
reads (copying id a p) = some p.zone
reads (reading id p) = some p.zone
reads (promoting id p d) = some p.zone
reads (leaving id p d) = some p.zone
reads _ = none

-- The zone of the result that the thread has looked up and not yet copied.
abbrev pub copies : Pc → Option ℕ
copies (copying id a p) = some p.zone
copies _ = none

-- The location that the thread was handed out and has not given back.
abbrev pub holds : Pc → Option Pair
holds (writing id p) = some p
holds (returning id p) = some p
holds (failing id p) = some p
holds _ = none

abbrev zone_of : Option Pair → Option ℕ
zone_of none = none
zone_of (some p) = some p.zone

abbrev pub hold_zone : Pc → Option ℕ
hold_zone t = zone_of (holds t)

-- The zone that the thread has written to and not yet made known.
abbrev pub publishes : Pc → Option ℕ
publishes (noting id p) = some p.zone
publishes (publishing id p) = some p.zone
publishes _ = none

-- The full zone that the thread will tell the policy, or that it evicts.
abbrev pub full_zone : ℕ → Pc → Option ℕ
full_zone max (noting id p) = if p.chunk_offset + 1 == max then some p.zone else none
full_zone max (clearing r k z) = some z
full_zone max (waiting r k z) = some z
full_zone max (resetting r k z) = some z
full_zone max _ = none

-- The zone that the thread has cleared from the map, and whether its readers are gone as well.
abbrev pub cleared : Pc → Option ℕ
cleared (waiting r k z) = some z
cleared (resetting r k z) = some z
cleared _ = none

abbrev pub resets : Pc → Option ℕ
resets (resetting r k z) = some z
resets _ = none

abbrev pub names : ℕ → Option ℕ → Bool
names k none = false
names k (some j) = j == k

abbrev pub one : ℕ → Option ℕ → ℕ
one k o = if names k o then 1 else 0

-- How many threads have `k` in hand.
abbrev pub number : (Pc → Option ℕ) → ℕ → List Pc → ℕ
number f k ts = count (λ t. names k (f t)) ts

module _ (f : Pc → Option ℕ) (k : ℕ) where
  pub number-set :
      (ts : List Pc) (i : ℕ) (t : Pc) {old : Pc}
      → get_elem? ts i ≡ some old
      → number f k (set ts i t) + one k (f old) ≡ number f k ts + one k (f t)
  number-set ts i t e = count-set (λ u. names k (f u)) ts i t e

  pub number-same :
      (ts : List Pc) (i : ℕ) (t : Pc) {old : Pc}
      → get_elem? ts i ≡ some old
      → f t ≡ f old
      → number f k (set ts i t) ≡ number f k ts
  number-same ts i t e same = ground (arith, number-set ts i t e, same)

  pub number-get :
      (ts : List Pc) (i : ℕ) (t : Pc)
      → get_elem? ts i ≡ some t
      → names k (f t) ≡ true
      → 0 < number f k ts
  number-get [] i t e h = cc
  number-get (x ∷ xs) zero t e h = ground arith
  number-get (x ∷ xs) (suc i) t e h = omega (arith, number-get xs i t e h)

  pub number-two :
      (ts : List Pc) (i j : ℕ) (t u : Pc)
      → get_elem? ts i ≡ some t
      → get_elem? ts j ≡ some u
      → i ≢ j
      → names k (f t) ≡ true
      → names k (f u) ≡ true
      → 1 < number f k ts
  number-two [] i j t u e e' n h h' = cc
  number-two (x ∷ xs) zero zero t u e e' n h h' = absurd (n refl)
  number-two (x ∷ xs) zero (suc j) t u e e' n h h' = ground (arith, number-get xs j u e' h')
  number-two (x ∷ xs) (suc i) zero t u e e' n h h' = ground (arith, number-get xs i t e h)
  number-two (x ∷ xs) (suc i) (suc j) t u e e' n h h' =
      omega (arith, number-two xs i j t u e e' (λ q. n (ap suc q)) h h')

module _ (f g : Pc → Option ℕ) (k : ℕ)
    (within : (t : Pc) → names k (f t) ≡ true → names k (g t) ≡ true) where
  number-le : (ts : List Pc) → number f k ts ≤ number g k ts
  number-le [] = omega arith
  number-le (t ∷ ts) = ground (arith, within t, number-le ts)

cleared-full_zone :
    (max k : ℕ) (t : Pc) → names k (cleared t) ≡ true → names k (full_zone max t) ≡ true
cleared-full_zone max k (waiting r n z) h = h
cleared-full_zone max k (resetting r n z) h = h
cleared-full_zone max k _ h = cc

resets-cleared : (k : ℕ) (t : Pc) → names k (resets t) ≡ true → names k (cleared t) ≡ true
resets-cleared k (resetting r n z) h = h
resets-cleared k _ h = cc

-- A cleared zone is one of the full zones that evictors have, and a zone to be reset is cleared.
pub cleared-le : (max k : ℕ) (ts : List Pc) → number cleared k ts ≤ number (full_zone max) k ts
cleared-le max k ts = number-le cleared (full_zone max) k (cleared-full_zone max k) ts

pub resets-le : (k : ℕ) (ts : List Pc) → number resets k ts ≤ number cleared k ts
resets-le k ts = number-le resets cleared k (resets-cleared k) ts
