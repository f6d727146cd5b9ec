-- ===== src/Concurrent/Frame.antt =====
-- What a step of one thread leaves of the invariant for the others.
use znworkload.Prelude.{ℕ, ◌≡◌, ◌≢◌, true, some, List, arith, get_elem?, set, ◌⊎◌, inl, inr}
use znworkload.Backend.{Pair}
use znworkload.Zsm.{Zsm, Zone}
use znworkload.Cachemap.{Cachemap, loc}
use znworkload.Cachemap.View.{at, view}
use znworkload.Promotional.{Policy}
use znworkload.Chunks.{Contents}
use znworkload.Concurrent.{
  Pc, idle, finding, copying, reading, promoting, leaving, done, locating, writing, returning,
  noting, publishing, failing, undoing, counting, choosing, clearing, waiting, resetting,
}
use znworkload.Concurrent.Places.{copies, fetches, reads, publishes, holds}
use znworkload.Concurrent.Zones.{Grows, Kept}
use znworkload.Concurrent.Invariant.{FullZone, Stored, Relies, Data, Small, Tokens, all-set}

pub FullZone-grows : (a b : List Zone) (i : ℕ) → Grows a b → FullZone a i → FullZone b i
FullZone-grows a b i g h =
    let l = g i h.zone h.there in
    record { zone = l.zone; there = l.there; filled = l.stays_full h.filled }

pub Stored-grows :
    (f : Contents) (s t : Zsm) (p : Pair) (id : ℕ) → Kept s t → Stored f s p id → Stored f t p id
Stored-grows f s t p id k h =
    let l = k.0 p.zone h.placed.zone h.placed.there in
    record {
      content = h.content;
      placed = record {
        zone = l.zone;
        there = l.there;
        behind = ground (arith, h.placed.behind, l.stays_full, l.passed);
      };
      room = omega (arith, h.room, k.1);
    }

pub Tokens-grows :
    (q : Policy) (s t : Zsm) (ts : List Pc) → Kept s t → Tokens q s ts → Tokens q t ts
Tokens-grows q s t ts k c = record {
  policy_ok = c.policy_ok;
  same_max = ground (arith, c.same_max, k.1);
  single = λ z. rw k.1 (c.single z);
  full = λ z h. FullZone-grows s.zones t.zones z k.0 (c.full z (rw k.1 at h));
}

-- A thread can still rely on what it did if its entry, its locations and their contents stay.
module _ (m m' : Cachemap) (f f' : Contents) (zs zs' : Zsm) where
  abbrev pub KeepsEntry : Pc → Type 0
  KeepsEntry t =
      (id a : ℕ) (p : Pair)
      → copies t ≡ some p.zone
      → m.zone_map id ≡ some a
      → m.results a ≡ some (loc p)
      → (m'.zone_map id ≡ some a) × (m'.results a ≡ some (loc p))

  abbrev pub KeepsStored : Pc → Type 0
  KeepsStored t =
      (p : Pair) (id : ℕ)
      → ((reads t ≡ some p.zone) ⊎ (publishes t ≡ some p.zone))
      → Stored f zs p id
      → Stored f' zs' p id

  abbrev pub KeepsContent : Pc → Type 0
  KeepsContent t =
      (p : Pair) (id : ℕ)
      → holds t ≡ some p
      → f.written p.zone p.chunk_offset ≡ some id
      → f'.written p.zone p.chunk_offset ≡ some id

  pub Relies-keep :
      (t : Pc)
      → KeepsEntry t
      → KeepsStored t
      → KeepsContent t
      → (f'.intact ≡ true → f.intact ≡ true)
      → zs'.max_zone_chunks ≡ zs.max_zone_chunks
      → Relies m f zs t
      → Relies m' f' zs' t
  Relies-keep idle k l c y e r = tt
  Relies-keep (finding id) k l c y e r = r
  Relies-keep (copying id a p) k l c y e r =
      let h = k id a p (cc) r.0 r.1 in (h.0, h.1, l p id (inl (cc)) r.2)
  Relies-keep (reading id p) k l c y e r = l p id (inl (cc)) r
  Relies-keep (promoting id p d) k l c y e r = (λ h. r.0 (y h), omega (arith, r.1, e))
  Relies-keep (leaving id p d) k l c y e r = λ h. r (y h)
  Relies-keep (done id d) k l c y e r = λ h. r (y h)
  Relies-keep (locating id) k l c y e r = tt
  Relies-keep (writing id p) k l c y e r = tt
  Relies-keep (returning id p) k l c y e r = c p id (cc) r
  Relies-keep (noting id p) k l c y e r = l p id (inr (cc)) r
  Relies-keep (publishing id p) k l c y e r = l p id (inr (cc)) r
  Relies-keep (failing id p) k l c y e r = tt
  Relies-keep (undoing id) k l c y e r = tt
  Relies-keep (counting x) k l c y e r = tt
  Relies-keep (choosing x n) k l c y e r = tt
  Relies-keep (clearing x n z) k l c y e r = tt
  Relies-keep (waiting x n z) k l c y e r = tt
  Relies-keep (resetting x n z) k l c y e r = tt

  module _ (ts : List Pc) (i : ℕ) (old t : Pc) (here : get_elem? ts i ≡ some old) where
    pub Data-set :
        ((id : ℕ) (p : Pair) → view m' id ≡ at p → Stored f' zs' p id)
        → ((j : ℕ) (u : Pc)
            → j ≢ i
            → get_elem? ts j ≡ some u
            → Relies m f zs u
            → Relies m' f' zs' u)
        → Relies m' f' zs' t
        → Small (fetches t)
        → Data m f zs ts
        → Data m' f' zs' (set ts i t)
    Data-set st keep new small d = record {
      stored = st;
      relies = all-set ts i old t here (Relies m f zs) (Relies m' f' zs') keep new d.relies;
      small =
          all-set ts i old t here (λ u. Small (fetches u)) (λ u. Small (fetches u)) (λ j u n e h. h)
            small d.small;
    }

-- A thread goes on to a place that it can rely on; nothing that is shared changes.
pub Data-same :
    (m : Cachemap) (f : Contents) (zs : Zsm) (ts : List Pc) (i : ℕ) (old t : Pc)
    → get_elem? ts i ≡ some old
    → Relies m f zs t
    → Small (fetches t)
    → Data m f zs ts
    → Data m f zs (set ts i t)
Data-same m f zs ts i old t here new small d =
    Data-set m m f f zs zs ts i old t here d.stored (λ j u n e r. r) new small d

-- So it is if the zone state manager does something that is no eviction.
pub Data-grows :
    (m : Cachemap) (f : Contents) (zs zs' : Zsm) (ts : List Pc) (i : ℕ) (old t : Pc)
    → get_elem? ts i ≡ some old
    → Kept zs zs'
    → Relies m f zs' t
    → Small (fetches t)
    → Data m f zs ts
    → Data m f zs' (set ts i t)
Data-grows m f zs zs' ts i old t here k new small d =
    Data-set m m f f zs zs' ts i old t here
      (λ id p e. Stored-grows f zs zs' p id k (d.stored id p e))
      (λ j u n e.
        Relies-keep m m f f zs zs' u (λ id a p r z q. (z, q))
          (λ p id r h. Stored-grows f zs zs' p id k h) (λ p id h q. q) (λ h. h) k.1)
      new small d

-- And if the map changes and keeps the entries of the locations that threads are reading.
pub Data-map :
    (m m' : Cachemap) (f : Contents) (zs : Zsm) (ts : List Pc) (i : ℕ) (old t : Pc)
    → get_elem? ts i ≡ some old
    → ((id : ℕ) (p : Pair) → view m' id ≡ at p → Stored f zs p id)
    → ((j : ℕ) (u : Pc) → get_elem? ts j ≡ some u → KeepsEntry m m' f f zs zs u)
    → Relies m' f zs t
    → Small (fetches t)
    → Data m f zs ts
    → Data m' f zs (set ts i t)
Data-map m m' f zs ts i old t here st keep new small d =
    Data-set m m' f f zs zs ts i old t here st
      (λ j u n e.
        Relies-keep m m' f f zs zs u (keep j u e) (λ p id r h. h) (λ p id h q. q) (λ h. h) (cc))
      new small d
