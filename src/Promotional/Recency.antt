-- ===== src/Promotional/Recency.antt =====
-- What the order means: over any history of accesses and evictions, the zones of the list stand in
-- the order of their last accesses.
use znworkload.Prelude.{
  ℕ, suc, ◌<◌, ◌≡◌, ◌^◌, inl, inr, refl, none, List, [], ◌∷◌, ◌++◌, ◌==◌, if◌then◌else◌, length,
  occ, arith, dec_lt,
}
use znworkload.Run.{ok, Returns-value}
use znworkload.Backend.{Pair}
use znworkload.Promotional.{
  Policy, promotional_update, get_zone_to_evict, IoType, read, write, promotional_init,
}
use znworkload.Promotional.Lru.{Inv, order, erase, occ-erase}
use znworkload.Promotional.Refines.{
  Fits, Accessed, accessed, promotional_update-Accessed, Evicts, get_zone_to_evict-Evicts,
  promotional_init-Inv,
}

-- The time of each zone's last access.
abbrev pub Stamps : Type 0
Stamps = ℕ → ℕ

abbrev pub stamp : Stamps → ℕ → ℕ → Stamps
stamp st zone now j = if zone == j then now else st j

-- A policy that was reached from its initial state, the stamps of the zones, and the time. A zone
-- of the list is full, so no zone is written while it is in the list.
pub data History (max : ℕ) : Policy → Stamps → ℕ → Type 0 where
  start : History max (promotional_init max) (λ _. 0) 0
  access :
      {p q : Policy} {st : Stamps} {now : ℕ} (location : Pair) (io : IoType)
      → History max p st now
      → Fits p location
      → (io ≡ write → p.zone_to_lru_map location.zone ≡ none)
      → promotional_update p location io ≡ ok q
      → History max q (stamp st location.zone now) (suc now)
  eviction :
      {p q : Policy} {st : Stamps} {now r : ℕ}
      → History max p st now
      → length p.lru_queue < 2 ^ 32
      → get_zone_to_evict p ≡ ok (q, r)
      → History max q st now

-- Every zone of the list was accessed after `t`, and before `now`.
abbrev pub After : Stamps → ℕ → ℕ → List ℕ → Type 0
After st t now [] = Unit {0}
After st t now (x ∷ xs) = (t < st x) × (st x < now) × After st t now xs

-- Each zone was accessed before those behind it in the list.
abbrev pub ByAge : Stamps → ℕ → List ℕ → Type 0
ByAge st now [] = Unit {0}
ByAge st now (x ∷ xs) = (st x < now) × After st (st x) now xs × ByAge st now xs

After-erase :
    (st : Stamps) (t now z : ℕ) (xs : List ℕ) → After st t now xs → After st t now (erase z xs)
After-erase st t now z [] a = tt
After-erase st t now z (x ∷ xs) a = ground (arith, a, After-erase st t now z xs)

ByAge-erase : (st : Stamps) (now z : ℕ) (xs : List ℕ) → ByAge st now xs → ByAge st now (erase z xs)
ByAge-erase st now z [] a = tt
ByAge-erase st now z (x ∷ xs) a =
    ground (arith, a, After-erase st (st x) now z xs, ByAge-erase st now z xs)

After-later :
    (st : Stamps) (t now z : ℕ) (xs : List ℕ)
    → occ z xs ≡ 0
    → After st t now xs
    → After (stamp st z now) t (suc now) xs
After-later st t now z [] o a = tt
After-later st t now z (x ∷ xs) o a =
    (ground (arith, o), ground (arith, o), After-later st t now z xs (ground (arith, o)) a.2)

ByAge-later :
    (st : Stamps) (now z : ℕ) (xs : List ℕ)
    → occ z xs ≡ 0
    → ByAge st now xs
    → ByAge (stamp st z now) (suc now) xs
ByAge-later st now z [] o a = tt
ByAge-later st now z (x ∷ xs) o a =
    let later = After-later st (st x) now z xs (ground (arith, o)) a.1 in
    (ground (arith, o), ground (arith, o, later), ByAge-later st now z xs (ground (arith, o)) a.2)

After-push :
    (st : Stamps) (t now z : ℕ) (xs : List ℕ)
    → t < now
    → After (stamp st z now) t (suc now) xs
    → After (stamp st z now) t (suc now) (xs ++ z ∷ [])
After-push st t now z [] h a = (ground arith, ground arith, tt)
After-push st t now z (x ∷ xs) h a = (a.0, a.1, After-push st t now z xs h a.2)

-- The accessed zone goes to the end.
ByAge-push :
    (st : Stamps) (now z : ℕ) (xs : List ℕ)
    → occ z xs ≡ 0
    → ByAge st now xs
    → ByAge (stamp st z now) (suc now) (xs ++ z ∷ [])
ByAge-push st now z [] o a = (ground arith, tt, tt)
ByAge-push st now z (x ∷ xs) o a =
    let rest = ByAge-push st now z xs (ground (arith, o)) a.2 in
    let later =
      After-push st (st x) now z xs a.0 (After-later st (st x) now z xs (ground (arith, o)) a.1) in
    (ground (arith, o), ground (arith, o, later), rest)

ByAge-accessed :
    (p : Policy) (location : Pair) (io : IoType) (st : Stamps) (now : ℕ)
    → Inv p
    → (io ≡ write → p.zone_to_lru_map location.zone ≡ none)
    → ByAge st now (order p.lru_queue)
    → ByAge (stamp st location.zone now) (suc now) (accessed p location io (order p.lru_queue))
ByAge-accessed p location write st now v once a =
    let z = location.zone in
    let o : occ z (order p.lru_queue) ≡ 0 = ground (arith, v.zones z, once refl) in
    ground (
      arith,
      ByAge-later st now z (order p.lru_queue) o a,
      ByAge-push st now z (order p.lru_queue) o a,
    )
ByAge-accessed p location read st now v once a = elim (dec_lt 0 (occ z zones)) [
  | no absent ↦ ground (arith, absent, ByAge-later st now z zones (omega arith) a)
  | yes there ↦
      let o : occ z (erase z zones) ≡ 0 = ground (arith, v.zones z, occ-erase z z zones there) in
      ground (arith, there, ByAge-push st now z (erase z zones) o (ByAge-erase st now z zones a))
]
  where
    z : ℕ
    z = location.zone

    zones : List ℕ
    zones = order p.lru_queue

-- After any history of accesses and evictions in which no zone is written while it is in the list,
-- the map leads to exactly the links of the list, and each zone of the list was last accessed
-- before the zones behind it.
pub History-ByAge :
    {max : ℕ} {p : Policy} {st : Stamps} {now : ℕ}
    → History max p st now
    → Inv p × ByAge st now (order p.lru_queue)
History-ByAge {max} start = (promotional_init-Inv max, unfold promotional_init in tt)
History-ByAge (access {p} {q} {st} {now} location io h fits once e) =
    let (v, a) = History-ByAge h in
    let r = promotional_update-Accessed p location io v fits (λ w _. once w) in
    let (v', o, _) = Returns-value (Accessed p location io) e r in
    (v', rw o (ByAge-accessed p location io st now v once a))
History-ByAge (eviction {p} {q} {st} {now} {r} h small e) =
    let (v, a) = History-ByAge h in
    let s = Returns-value (Evicts p) e (get_zone_to_evict-Evicts p v small) in
    elim s [ inl (_, _, same) ↦ rw same (v, a) | inr (v', o, _) ↦ (v', (rw o at a).2) ]

After-all : (st : Stamps) (t now w : ℕ) (xs : List ℕ) → After st t now xs → 0 < occ w xs → t < st w
After-all st t now w [] a h = absurd (omega arith)
After-all st t now w (x ∷ xs) a h = ground (arith, a, After-all st t now w xs)

-- After any history of accesses and evictions in which no zone is written while it is in the list,
-- the zone that is evicted next was last accessed before every zone that stays in the list,
-- provided that the list has fewer than 2^32 zones.
pub evicts_oldest :
    {max : ℕ} {p : Policy} {st : Stamps} {now : ℕ} (q : Policy) (r w : ℕ)
    → History max p st now
    → length p.lru_queue < 2 ^ 32
    → get_zone_to_evict p ≡ ok (q, r)
    → 0 < occ w (order q.lru_queue)
    → st r < st w
evicts_oldest {p = p} {st = st} {now = now} q r w h small e held =
    let (v, a) = History-ByAge h in
    elim (Returns-value (Evicts p) e (get_zone_to_evict-Evicts p v small)) [
      | inl (none_left, _, same) ↦ ground (arith, none_left, same, held)
      | inr (_, o, _) ↦ After-all st (st r) now w (order q.lru_queue) (rw o at a).1 held
    ]
