-- ===== src/Cachemap/Drop.antt =====
-- A result that is taken out of `zone_map` and freed.
use znworkload.Prelude.{
  ℕ, ◌<◌, ◌≡◌, ◌^◌, true, some, [], ◌∷◌, ◌==◌, if◌then◌else◌, arith, occ, Option-cases, inl, inr,
}
use znworkload.Backend.{Pair}
use znworkload.Cachemap.{Cachemap, loc, Table, int_key, drop_result}
use znworkload.Cachemap.View.{absent, view, chunks, Entry, Entries, is_live}

-- The part of the invariant that holds between the rounds of the loop.
pub record Loop (m : Cachemap) : Type 0 where
  pub live : (id a : ℕ) → m.zone_map id ≡ some a → (is_live (m.results a) ≡ true) × (a < m.next)
  pub own : (id id' a : ℕ) → m.zone_map id ≡ some a → m.zone_map id' ≡ some a → id ≡ id'

module _ (m : Cachemap) (v : Loop m) (id a : ℕ) (known : m.zone_map id ≡ some a) where
  abbrev pub gone : Cachemap
  gone = drop_result m id a

  pub view-gone : (j : ℕ) → view gone j ≡ (if id == j then absent else view m j)
  view-gone j = elim (Option-cases (m.zone_map j)) [
    | inl none_there ↦ ground (arith, none_there)
    | inr (b, e) ↦ ground (arith, e, known, v.own id j a known)
  ]

  pub gone-Loop : Loop gone
  gone-Loop = record {
    live = λ j b e. ground (arith, v.live j b, v.own id j a known);
    own = λ j j' b e f. ground (arith, v.own j j' b);
  }

  -- The other entries of the zone stay, since no two chunks have one ID.
  pub Entries-gone :
      (zone c : ℕ) (t : Table)
      → Entry m zone c id
      → occ c (chunks t) ≡ 0
      → Entries m zone t
      → Entries gone zone t
  Entries-gone zone c [] e o k = tt
  Entries-gone zone c ((d, j) ∷ t) e o k = (
    record {
      location = k.0.location;
      seen = ground (arith, view-gone j, e, k.0, o);
      in_zone = k.0.in_zone;
      at_chunk = k.0.at_chunk;
      small = k.0.small;
    },
    Entries-gone zone c t e (ground (arith, o)) k.1,
  )

pub entry-known :
    (m : Cachemap) (zone c id : ℕ)
    → Entry m zone c id
    → (a : ℕ) × (p : Pair) × (m.zone_map id ≡ some a)
      × (m.results a ≡ some (loc p))
      × (p.zone ≡ zone)
entry-known m zone c id e = elim (Option-cases (m.zone_map id)) [
  | inl n ↦ absurd (ground (arith, e.seen, n))
  | inr (a, k) ↦ (a, e.location, k, ground (arith, e.seen, k), e.in_zone)
]

pub int_key-small : (id : ℕ) → id < 2 ^ 31 → int_key id ≡ id
unfolding int_key
int_key-small id h = ground arith
