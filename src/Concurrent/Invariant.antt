-- ===== src/Concurrent/Invariant.antt =====
-- The invariant of the threads of src/cache.c: what each thread has in hand agrees with the cache
-- map, the eviction policy, the zone state manager and what the device holds.
use znworkload.Prelude.{
  ℕ, ◌+◌, ◌≤◌, ◌<◌, ◌≡◌, ◌≢◌, ◌^◌, true, Option, some, none, List, arith, length, get_elem?, set,
  ◌⊎◌, ℕ_discrete, get_elem?-set, get_elem?-lt, length-set,
}
use znworkload.Backend.{Pair}
use znworkload.Zsm.{Zsm, Zone, is_full}
use znworkload.Zsm.Invariant
use znworkload.Cachemap.{Cachemap, loc}
use znworkload.Cachemap.View
use znworkload.Cachemap.View.{State, absent, writing, at, view}
use znworkload.Promotional.{Policy}
use znworkload.Promotional.Lru
use znworkload.Chunks.{Contents}
use znworkload.Concurrent.{
  System, Chunk, Pc, finding, copying, reading, promoting, leaving, done, returning, noting,
  publishing,
}
use znworkload.Concurrent.Places.{
  fetches, reads, full_zone, publishes, cleared, resets, number, number-same, holds,
}
use znworkload.Concurrent.Held.{held_of, held_of-same}

-- A location that was written and returned, in a zone that has not been evicted since.
pub record Placed (zones : List Zone) (p : Pair) : Type 0 where
  pub zone : Zone
  pub there : get_elem? zones p.zone ≡ some zone
  pub behind : (is_full zone.state ≡ true) ⊎ (p.chunk_offset < zone.chunk_offset)

pub record FullZone (zones : List Zone) (i : ℕ) : Type 0 where
  pub zone : Zone
  pub there : get_elem? zones i ≡ some zone
  pub filled : is_full zone.state ≡ true

-- The chunk of the ID was written to the location.
pub record Stored (f : Contents) (zs : Zsm) (p : Pair) (id : ℕ) : Type 0 where
  pub content : f.written p.zone p.chunk_offset ≡ some id
  pub placed : Placed zs.zones p
  pub room : p.chunk_offset < zs.max_zone_chunks

-- NULL, or the chunk of the ID
abbrev pub Own : ℕ → Chunk → Type 0
Own id none = Unit {0}
Own id (some d) = d ≡ some id

-- It is so while no write has gone past the end of its chunk.
abbrev pub OwnIf : Contents → ℕ → Chunk → Type 0
OwnIf f id d = f.intact ≡ true → Own id d

abbrev pub Small : Option ℕ → Type 0
Small none = Unit {0}
Small (some id) = id < 2 ^ 31

module _ (m : Cachemap) (f : Contents) (zs : Zsm) where
  -- What a thread relies on between its steps.
  abbrev pub Relies : Pc → Type 0
  Relies (copying id a p) =
      (m.zone_map id ≡ some a) × (m.results a ≡ some (loc p)) × Stored f zs p id
  Relies (reading id p) = Stored f zs p id
  Relies (promoting id p d) = OwnIf f id d × (p.chunk_offset < zs.max_zone_chunks)
  Relies (leaving id p d) = OwnIf f id d
  Relies (done id d) = OwnIf f id d
  Relies (returning id p) = f.written p.zone p.chunk_offset ≡ some id
  Relies (noting id p) = Stored f zs p id
  Relies (publishing id p) = Stored f zs p id
  Relies (finding id) = id < 2 ^ 31
  Relies _ = Unit {0}

  -- What the map says lies somewhere lies there, and the threads can rely on what they do.
  pub record Data (ts : List Pc) : Type 0 where
    pub stored : (id : ℕ) (p : Pair) → view m id ≡ at p → Stored f zs p id
    pub relies : (i : ℕ) (t : Pc) → get_elem? ts i ≡ some t → Relies t
    pub small : (i : ℕ) (t : Pc) → get_elem? ts i ≡ some t → Small (fetches t)

abbrev pub writers_of : State → ℕ
writers_of absent = 0
writers_of writing = 1
writers_of (at p) = 0

-- An ID has one writer while the map says that it is being written, and none otherwise; a zone's
-- counter counts its readers.
pub record Claims (m : Cachemap) (ts : List Pc) : Type 0 where
  pub map_ok : View.Inv m
  pub writers : (id : ℕ) → number fetches id ts ≡ writers_of (view m id)
  pub readers : (z : ℕ) → m.active_readers z ≡ number reads z ts

-- A zone is in the policy's queue or in one thread's hands, never in both, and it is full.
pub record Tokens (q : Policy) (zs : Zsm) (ts : List Pc) : Type 0 where
  pub policy_ok : Lru.Inv q
  pub same_max : q.zone_max_chunks ≡ zs.max_zone_chunks
  pub single :
      (z : ℕ) → Lru.has (q.zone_to_lru_map z) + number (full_zone zs.max_zone_chunks) z ts ≤ 1
  pub full :
      (z : ℕ)
      → 0 < Lru.has (q.zone_to_lru_map z) + number (full_zone zs.max_zone_chunks) z ts
      → FullZone zs.zones z

-- No ID lies in a zone that an evictor has cleared, no thread will still publish one there, and once
-- the evictor resets it, no thread reads there.
pub record Clears (m : Cachemap) (ts : List Pc) : Type 0 where
  pub vacant : (z id : ℕ) (p : Pair) → 0 < number cleared z ts → view m id ≡ at p → p.zone ≢ z
  pub unpublished : (z : ℕ) → 0 < number cleared z ts → number publishes z ts ≡ 0
  pub quiet : (z : ℕ) → 0 < number resets z ts → number reads z ts ≡ 0

pub record Inv (s : System) : Type 0 where
  pub alloc : Invariant.Inv s.zone_state (held_of s.threads)
  pub same_num : s.cache_map.num_zones ≡ s.zone_state.num_zones
  pub few : length s.threads < 2 ^ 31
  pub claims : Claims s.cache_map s.threads
  pub tokens : Tokens s.eviction_policy s.zone_state s.threads
  pub chunks : Data s.cache_map s.contents s.zone_state s.threads
  pub clears : Clears s.cache_map s.threads

-- A thread moves to a place with the same things in hand.
module _ (ts : List Pc) (i : ℕ) (old t : Pc) (here : get_elem? ts i ≡ some old) where
  pub Alloc-same :
      (zs : Zsm)
      → holds t ≡ holds old
      → Invariant.Inv zs (held_of ts)
      → Invariant.Inv zs (held_of (set ts i t))
  Alloc-same zs e v = rw (held_of-same t ts i here e) v

  pub Claims-same :
      (m : Cachemap)
      → fetches t ≡ fetches old
      → reads t ≡ reads old
      → Claims m ts
      → Claims m (set ts i t)
  Claims-same m e e' c = record {
    map_ok = c.map_ok;
    writers = λ id. rw (number-same fetches id ts i t here e) (c.writers id);
    readers = λ z. rw (number-same reads z ts i t here e') (c.readers z);
  }

  pub Tokens-same :
      (q : Policy) (zs : Zsm)
      → full_zone zs.max_zone_chunks t ≡ full_zone zs.max_zone_chunks old
      → Tokens q zs ts
      → Tokens q zs (set ts i t)
  Tokens-same q zs e c =
      let same = λ (z : ℕ). number-same (full_zone zs.max_zone_chunks) z ts i t here e in
      record {
        policy_ok = c.policy_ok;
        same_max = c.same_max;
        single = λ z. rw (same z) (c.single z);
        full = λ z h. c.full z (rw (same z) at h);
      }

  pub Clears-same :
      (m : Cachemap)
      → cleared t ≡ cleared old
      → publishes t ≡ publishes old
      → resets t ≡ resets old
      → reads t ≡ reads old
      → Clears m ts
      → Clears m (set ts i t)
  Clears-same m e e' e'' e''' c =
      let a = λ (z : ℕ). number-same cleared z ts i t here e in
      let b = λ (z : ℕ). number-same publishes z ts i t here e' in
      let d = λ (z : ℕ). number-same resets z ts i t here e'' in
      let f = λ (z : ℕ). number-same reads z ts i t here e''' in
      record {
        vacant = λ z id p h. c.vacant z id p (rw (a z) at h);
        unpublished = λ z h. rw (b z) (c.unpublished z (rw (a z) at h));
        quiet = λ z h. rw (f z) (c.quiet z (rw (d z) at h));
      }

  -- All threads satisfy `Q` if the others keep what they had and the thread has it at its new place.
  pub all-set :
      (P Q : Pc → Type 0)
      → ((j : ℕ) (u : Pc) → j ≢ i → get_elem? ts j ≡ some u → P u → Q u)
      → Q t
      → ((j : ℕ) (u : Pc) → get_elem? ts j ≡ some u → P u)
      → (j : ℕ) (u : Pc) → get_elem? (set ts i t) j ≡ some u
      → Q u
  all-set P Q keep new all j u e =
      let lt = get_elem?-lt ts i here in
      elim (ℕ_discrete i j) [
        | yes same ↦ ground (arith, same, get_elem?-set ts i j t lt, new)
        | no n ↦
            let e' : get_elem? ts j ≡ some u = ground (arith, n, get_elem?-set ts i j t lt) in
            keep j u (λ q. n (ground (arith, q))) e' (all j u e')
      ]

  pub enter-few : length ts < 2 ^ 31 → length (set ts i t) < 2 ^ 31
  enter-few h = omega (arith, length-set ts i t)

-- All that a thread has in hand.
pub record Hands : Type 0 where
  pub held : Option Pair
  pub fetched : Option ℕ
  pub reader : Option ℕ
  pub full : Option ℕ
  pub emptied : Option ℕ
  pub published : Option ℕ
  pub reset : Option ℕ

abbrev pub hands : ℕ → Pc → Hands
hands max t = record {
  held = holds t;
  fetched = fetches t;
  reader = reads t;
  full = full_zone max t;
  emptied = cleared t;
  published = publishes t;
  reset = resets t;
}
