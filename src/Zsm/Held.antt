-- ===== src/Zsm/Held.antt =====
-- Giving back one of the held locations.
use znworkload.Prelude.{
  ℕ, zero, suc, ◌+◌, ◌≡◌, List, [], ◌∷◌, some, arith, ◌==◌, if◌then◌else◌, length, get_elem?, occ,
}
use znworkload.Backend.{Pair}
use znworkload.Zsm.{Zone}
use znworkload.Zsm.Invariant.{HeldOk, AllHeld, held_zones}

-- The list without its entry at the given position.
unfoldable pub without : ℕ → List Pair → List Pair
without k [] = []
without zero (p ∷ ps) = ps
without (suc k) (p ∷ ps) = p ∷ without k ps

module _ {p : Pair} where
  pub length-without :
      (k : ℕ) (held : List Pair)
      → get_elem? held k ≡ some p
      → length (without k held) + 1 ≡ length held
  unfolding without
  length-without k [] e = cc
  length-without zero (q ∷ ps) e = omega arith
  length-without (suc k) (q ∷ ps) e = omega (arith, length-without k ps e)

  pub occ-without :
      (j k : ℕ) (held : List Pair)
      → get_elem? held k ≡ some p
      → occ j (held_zones (without k held)) + (if p.zone == j then 1 else 0)
        ≡ occ j (held_zones held)
  unfolding without
  occ-without j k [] e = cc
  occ-without j zero (q ∷ ps) e = ground arith
  occ-without j (suc k) (q ∷ ps) e = omega (arith, occ-without j k ps e)

  pub AllHeld-get :
      (zones : List Zone) (max k : ℕ) (held : List Pair)
      → get_elem? held k ≡ some p
      → AllHeld zones max held
      → HeldOk zones max p
  AllHeld-get zones max k [] e a = cc
  AllHeld-get zones max zero (q ∷ ps) e a = subst_held a.0
    where
      subst_held : HeldOk zones max q → HeldOk zones max p
      subst_held h = ground (arith, h)
  AllHeld-get zones max (suc k) (q ∷ ps) e a = AllHeld-get zones max k ps e a.1

pub AllHeld-without :
    (zones : List Zone) (max k : ℕ) (held : List Pair)
    → AllHeld zones max held
    → AllHeld zones max (without k held)
unfolding without
AllHeld-without zones max k [] a = tt
AllHeld-without zones max zero (q ∷ ps) a = a.1
AllHeld-without zones max (suc k) (q ∷ ps) a = (a.0, AllHeld-without zones max k ps a.1)
