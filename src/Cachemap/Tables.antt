-- ===== src/Cachemap/Tables.antt =====
-- The tables of `data_map`: insertion, removal, and the entries that stay.
use znworkload.Prelude.{
  ℕ, ◌+◌, ◌≡◌, refl, some, none, [], ◌∷◌, ◌==◌, if◌then◌else◌, arith, occ, ℕ_discrete, ◌≤◌,
}
use znworkload.Backend.{Pair}
use znworkload.Cachemap.{Cachemap, Table, find_chunk, put_chunk, remove_chunk}
use znworkload.Cachemap.View.{at, view, chunks, Entry, Entries}

-- The entries stay if no location is forgotten.
pub Entries-keep :
    (m m' : Cachemap) (zone : ℕ) (t : Table)
    → ((id : ℕ) (p : Pair) → p.zone ≡ zone → view m id ≡ at p → view m' id ≡ at p)
    → Entries m zone t
    → Entries m' zone t
Entries-keep m m' zone [] k e = tt
Entries-keep m m' zone ((c, id) ∷ t) k e = (
  record {
    location = e.0.location;
    seen = k id e.0.location e.0.in_zone e.0.seen;
    in_zone = e.0.in_zone;
    at_chunk = e.0.at_chunk;
    small = e.0.small;
  },
  Entries-keep m m' zone t k e.1,
)

pub find_chunk-put :
    (c d id : ℕ) (t : Table)
    → find_chunk d (put_chunk c id t) ≡ (if c == d then some id else find_chunk d t)
find_chunk-put c d id [] = refl
find_chunk-put c d id ((e, old) ∷ t) = ground (arith, find_chunk-put c d id t)

pub chunks-put :
    (c d id : ℕ) (t : Table)
    → find_chunk c t ≡ none
    → occ d (chunks (put_chunk c id t)) ≡ occ d (chunks t) + (if c == d then 1 else 0)
chunks-put c d id [] e = ground arith
chunks-put c d id ((b, old) ∷ t) e = ground (arith, chunks-put c d id t)

pub occ-none : (c : ℕ) (t : Table) → find_chunk c t ≡ none → occ c (chunks t) ≡ 0
occ-none c [] e = refl
occ-none c ((b, old) ∷ t) e = ground (arith, occ-none c t)

pub Entries-put :
    (m : Cachemap) (zone c id : ℕ) (t : Table)
    → find_chunk c t ≡ none
    → Entry m zone c id
    → Entries m zone t
    → Entries m zone (put_chunk c id t)
Entries-put m zone c id [] n e k = (e, tt)
Entries-put m zone c id ((b, old) ∷ t) n e k = elim (ℕ_discrete b c) [
  | yes same ↦ absurd (ground (arith, same, n))
  | no d ↦ ground (arith, d, k.0, Entries-put m zone c id t (ground (arith, d, n)) e k.1)
]

-- A chunk that no key of the table is.
pub find_chunk-none : (c : ℕ) (t : Table) → occ c (chunks t) ≡ 0 → find_chunk c t ≡ none
find_chunk-none c [] e = refl
find_chunk-none c ((b, old) ∷ t) e = ground (arith, find_chunk-none c t)

pub find_chunk-remove :
    (c d : ℕ) (t : Table)
    → occ c (chunks t) ≤ 1
    → find_chunk d (remove_chunk c t) ≡ (if c == d then none else find_chunk d t)
find_chunk-remove c d [] o = ground arith
find_chunk-remove c d ((b, old) ∷ t) o =
    ground (arith, find_chunk-remove c d t, find_chunk-none c t)

pub chunks-remove : (c d : ℕ) (t : Table) → occ d (chunks (remove_chunk c t)) ≤ occ d (chunks t)
chunks-remove c d [] = omega arith
chunks-remove c d ((b, old) ∷ t) = ground (arith, chunks-remove c d t)

pub gone-remove : (c : ℕ) (t : Table) → occ c (chunks t) ≤ 1 → occ c (chunks (remove_chunk c t)) ≡ 0
gone-remove c [] o = refl
gone-remove c ((b, old) ∷ t) o = ground (arith, gone-remove c t)

pub Entries-remove :
    (m : Cachemap) (zone c : ℕ) (t : Table) → Entries m zone t → Entries m zone (remove_chunk c t)
Entries-remove m zone c [] k = tt
Entries-remove m zone c ((b, old) ∷ t) k = elim (ℕ_discrete b c) [
  | yes same ↦ let e : remove_chunk c ((b, old) ∷ t) ≡ t = ground (arith, same) in rw e (k.1)
  | no n ↦
      let e : remove_chunk c ((b, old) ∷ t) ≡ (b, old) ∷ remove_chunk c t = ground (arith, n) in
      rw e (k.0, Entries-remove m zone c t k.1)
]
