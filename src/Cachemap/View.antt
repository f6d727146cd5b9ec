-- ===== src/Cachemap/View.antt =====
-- What the map says of a data ID, and the invariant that ties its tables together.
use znworkload.Prelude.{
  ℕ, ◌<◌, ◌≤◌, ◌≡◌, ◌^◌, Bool, true, false, Option, some, none, List, [], ◌∷◌, occ,
}
use znworkload.Backend.{Pair}
use znworkload.Cachemap.{Cachemap, MapResult, loc, cond, Table, find_chunk}

-- A data ID is not known, is being written, or lies at a location.
pub data State : Type 0 where
  absent writing : State
  at : Pair → State

abbrev state_of : Option MapResult → State
state_of none = absent
state_of (some cond) = writing
state_of (some (loc p)) = at p

abbrev through : Option ℕ → (ℕ → Option MapResult) → State
through none results = absent
through (some a) results = state_of (results a)

abbrev pub view : Cachemap → ℕ → State
view m id = through (m.zone_map id) m.results

abbrev pub chunks : Table → List ℕ
chunks [] = []
chunks ((c, id) ∷ t) = c ∷ chunks t

-- The location of an ID, to be compared with an entry of a zone's table.
pub record Entry (m : Cachemap) (zone chunk id : ℕ) : Type 0 where
  pub location : Pair
  pub seen : view m id ≡ at location
  pub in_zone : location.zone ≡ zone
  pub at_chunk : location.chunk_offset ≡ chunk
  pub small : id < 2 ^ 31

abbrev pub Entries : Cachemap → ℕ → Table → Type 0
Entries m zone [] = Unit {0}
Entries m zone ((c, id) ∷ t) = Entry m zone c id × Entries m zone t

abbrev pub is_live : Option MapResult → Bool
is_live none = false
is_live (some r) = true

pub record Inv (m : Cachemap) : Type 0 where
  pub live : (id a : ℕ) → m.zone_map id ≡ some a → (is_live (m.results a) ≡ true) × (a < m.next)
  pub own : (id id' a : ℕ) → m.zone_map id ≡ some a → m.zone_map id' ≡ some a → id ≡ id'
  pub listed :
      (id : ℕ) (p : Pair)
      → view m id ≡ at p
      → (p.zone < m.num_zones) × (find_chunk p.chunk_offset (m.data_map p.zone) ≡ some id)
  pub entries : (zone : ℕ) → Entries m zone (m.data_map zone)
  pub distinct : (zone c : ℕ) → occ c (chunks (m.data_map zone)) ≤ 1
