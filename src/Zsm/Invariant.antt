-- ===== src/Zsm/Invariant.antt =====
-- The invariant of the zone state manager, together with the locations that its clients hold.
use znworkload.Prelude.{
  ℕ, ◌+◌, ◌≤◌, ◌<◌, ◌≡◌, ◌^◌, true, List, [], ◌∷◌, some, arith, if◌then◌else◌, length, get_elem?,
  set, get_elem?-set, count, occ,
}
use znworkload.Backend.{Pair}
use znworkload.Zsm.{Zsm, Zone, is_free, is_full, is_active, is_writing}

-- The zones of the locations that were handed out and not yet given back.
abbrev pub held_zones : List Pair → List ℕ
held_zones [] = []
held_zones (p ∷ ps) = p.zone ∷ held_zones ps

-- A zone's place in the array, and which of the queues it is in.
pub record ZoneOk (s : Zsm) (held : List Pair) (i : ℕ) (z : Zone) : Type 0 where
  pub id : z.zone_id ≡ i
  pub in_active : occ i s.active_queue ≡ (if is_active z.state then 1 else 0)
  pub in_free : occ i s.free_queue ≤ (if is_free z.state then 1 else 0)
  pub in_held : occ i (held_zones held) ≤ (if is_writing z.state then 1 else 0)
  pub open_offset : is_active z.state ≡ true → z.chunk_offset < s.max_zone_chunks
  pub free_offset : is_free z.state ≡ true → z.chunk_offset ≡ 0
  pub full_offset : is_full z.state ≡ true → z.chunk_offset ≡ 0

-- A held location is the next chunk of a zone that is being written.
pub record HeldOk (zones : List Zone) (max : ℕ) (p : Pair) : Type 0 where
  pub zone : Zone
  pub found : get_elem? zones p.zone ≡ some zone
  pub writing : is_writing zone.state ≡ true
  pub next : zone.chunk_offset ≡ p.chunk_offset
  pub room : p.chunk_offset < max

abbrev pub AllHeld : List Zone → ℕ → List Pair → Type 0
AllHeld zones max [] = Unit {0}
AllHeld zones max (p ∷ ps) = HeldOk zones max p × AllHeld zones max ps

-- The sizes that the 32-bit counters can hold.
pub record Sizes (s : Zsm) : Type 0 where
  pub zones_length : length s.zones ≡ s.num_zones
  pub zones_small : s.num_zones < 2 ^ 32
  pub max_pos : 0 < s.max_nr_active_zones
  pub max_small : s.max_nr_active_zones < 2 ^ 31
  pub chunks_pos : 0 < s.max_zone_chunks
  pub chunks_small : s.max_zone_chunks < 2 ^ 32

pub record Inv (s : Zsm) (held : List Pair) : Type 0 where
  pub sizes : Sizes s
  pub zone_ok : (i : ℕ) (z : Zone) → get_elem? s.zones i ≡ some z → ZoneOk s held i z
  pub active_inside : (i : ℕ) → 0 < occ i s.active_queue → i < length s.zones
  pub free_inside : (i : ℕ) → 0 < occ i s.free_queue → i < length s.zones
  pub all_held : AllHeld s.zones s.max_zone_chunks held
  pub writers : s.writes_occurring ≡ length held
  pub limit : length s.active_queue + length held ≤ s.max_nr_active_zones
  pub free_count : length s.free_queue ≤ count (λ z. is_free z.state) s.zones

-- A write to a zone that nobody holds leaves the held locations as they are.
pub AllHeld-set :
    (zones : List Zone) (max i : ℕ) (z : Zone) (held : List Pair)
    → i < length zones
    → occ i (held_zones held) ≡ 0
    → AllHeld zones max held
    → AllHeld (set zones i z) max held
AllHeld-set zones max i z [] h o a = tt
AllHeld-set zones max i z (p ∷ ps) h o a = (
  record {
    zone = a.0.zone;
    found = ground (arith, get_elem?-set zones i p.zone z h, a.0.found);
    writing = a.0.writing;
    next = a.0.next;
    room = a.0.room;
  },
  AllHeld-set zones max i z ps h (ground arith) a.1,
)
