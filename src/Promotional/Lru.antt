-- ===== src/Promotional/Lru.antt =====
-- The policy keeps the full zones in the order of their last use: a refinement of a plain list.
use znworkload.Prelude.{
  ℕ, ◌+◌, ◌<◌, ◌≤◌, ◌≡◌, ◌≢◌, refl, ap, Option, some, none, List, [], ◌∷◌, ◌++◌, ◌==◌,
  if◌then◌else◌, occ, occ-append, arith, ℕ_discrete,
}
use znworkload.Run.{ok}
use znworkload.Promotional.{Link, Policy, set_key, link_data, delete_link, push_zone}

-- The zones of the queue, least recently used first.
abbrev pub order : List Link → List ℕ
order [] = []
order (n ∷ ns) = n.payload ∷ order ns

abbrev pub addresses : List Link → List ℕ
addresses [] = []
addresses (n ∷ ns) = n.address ∷ addresses ns

-- The list without its first entry `z`.
abbrev pub erase : ℕ → List ℕ → List ℕ
erase z [] = []
erase z (x ∷ xs) = if x == z then xs else x ∷ erase z xs

abbrev pub Linked : (ℕ → Option ℕ) → ℕ → List Link → Type 0
Linked m next [] = Unit {0}
Linked m next (n ∷ ns) = (m n.payload ≡ some n.address) × (n.address < next) × Linked m next ns

abbrev pub has : Option ℕ → ℕ
has none = 0
has (some l) = 1

-- The map leads to each link of the queue, and to no other.
pub record Inv (p : Policy) : Type 0 where
  pub linked : Linked p.zone_to_lru_map p.next_link p.lru_queue
  pub zones : (z : ℕ) → occ z (order p.lru_queue) ≡ has (p.zone_to_lru_map z)
  pub distinct : (l : ℕ) → occ l (addresses p.lru_queue) ≤ 1

Linked-address :
    (m : ℕ → Option ℕ) (next z l : ℕ) (ns : List Link)
    → Linked m next ns
    → m z ≡ some l
    → 0 < occ z (order ns)
    → 0 < occ l (addresses ns)
Linked-address m next z l [] k e h = absurd (omega arith)
Linked-address m next z l (n ∷ ns) k e h = elim (ℕ_discrete n.payload z) [
  | yes here ↦ ground (arith, here, k.0, e)
  | no there ↦ ground (arith, h, there, Linked-address m next z l ns k.2 e)
]

-- The map's link to a zone of the queue is the one that holds it, and deleting it takes the zone
-- out of the order.
pub link_data-order :
    (m : ℕ → Option ℕ) (next z l : ℕ) (ns : List Link)
    → Linked m next ns
    → ((k : ℕ) → occ k (addresses ns) ≤ 1)
    → m z ≡ some l
    → 0 < occ z (order ns)
    → (link_data l ns ≡ ok z) × (order (delete_link l ns) ≡ erase z (order ns))
unfolding link_data delete_link
link_data-order m next z l [] k d e h = absurd (omega arith)
link_data-order m next z l (n ∷ ns) k d e h = elim (ℕ_discrete n.payload z) [
  | yes here ↦ ground (arith, here, k.0, e)
  | no there ↦
      let h' : 0 < occ z (order ns) = ground (arith, h, there) in
      ground (
        arith,
        there,
        d l,
        Linked-address m next z l ns k.2 e h',
        link_data-order m next z l ns k.2 (λ j. ground (arith, d j)) e h',
      )
]

pub Linked-set :
    (m : ℕ → Option ℕ) (next next' z : ℕ) (v : Option ℕ) (ns : List Link)
    → next ≤ next'
    → occ z (order ns) ≡ 0
    → Linked m next ns
    → Linked (set_key m z v) next' ns
Linked-set m next next' z v [] h o k = tt
Linked-set m next next' z v (n ∷ ns) h o k = (
  ground (arith, k.0),
  omega (arith, k.1),
  Linked-set m next next' z v ns h (ground (arith, o)) k.2,
)

Linked-push :
    (m : ℕ → Option ℕ) (next : ℕ) (ns : List Link) (n : Link)
    → m n.payload ≡ some n.address
    → n.address < next
    → Linked m next ns
    → Linked m next (ns ++ n ∷ [])
Linked-push m next [] n e h k = (e, h, tt)
Linked-push m next (x ∷ ns) n e h k = (k.0, k.1, Linked-push m next ns n e h k.2)

Linked-fresh :
    (m : ℕ → Option ℕ) (next : ℕ) (ns : List Link) → Linked m next ns → occ next (addresses ns) ≡ 0
Linked-fresh m next [] k = refl
Linked-fresh m next (n ∷ ns) k = ground (arith, k.1, Linked-fresh m next ns k.2)

pub Linked-delete :
    (m : ℕ → Option ℕ) (next l : ℕ) (ns : List Link)
    → Linked m next ns
    → Linked m next (delete_link l ns)
unfolding delete_link
Linked-delete m next l [] k = tt
Linked-delete m next l (n ∷ ns) k = elim (ℕ_discrete n.address l) [
  | yes e ↦ ground (arith, k.2)
  | no d ↦ ground (arith, k.0, k.1, Linked-delete m next l ns k.2)
]

pub addresses-delete :
    (l j : ℕ) (ns : List Link) → occ j (addresses (delete_link l ns)) ≤ occ j (addresses ns)
unfolding delete_link
addresses-delete l j [] = omega arith
addresses-delete l j (n ∷ ns) = ground (arith, addresses-delete l j ns)

pub order-append : (ns ms : List Link) → order (ns ++ ms) ≡ order ns ++ order ms
order-append [] ms = refl
order-append (n ∷ ns) ms = ap (◌∷◌ n.payload) (order-append ns ms)

addresses-append : (ns ms : List Link) → addresses (ns ++ ms) ≡ addresses ns ++ addresses ms
addresses-append [] ms = refl
addresses-append (n ∷ ns) ms = ap (◌∷◌ n.address) (addresses-append ns ms)

pub occ-erase :
    (z j : ℕ) (xs : List ℕ)
    → 0 < occ z xs
    → occ j (erase z xs) + (if z == j then 1 else 0) ≡ occ j xs
occ-erase z j [] h = absurd (omega arith)
occ-erase z j (x ∷ xs) h = ground (arith, occ-erase z j xs)

-- Pushing a zone that the rest of the queue does not hold.
pub push_zone-Inv :
    (p : Policy) (ns : List Link) (z : ℕ)
    → Linked p.zone_to_lru_map p.next_link ns
    → occ z (order ns) ≡ 0
    → ((j : ℕ) → j ≢ z → occ j (order ns) ≡ has (p.zone_to_lru_map j))
    → ((l : ℕ) → occ l (addresses ns) ≤ 1)
    → Inv (push_zone (record p { lru_queue = ns }) z z)
push_zone-Inv p ns z k o h d =
    let n : Link = record { address = p.next_link; payload = z } in
    record {
      linked =
          Linked-push (set_key p.zone_to_lru_map z (some p.next_link)) (p.next_link + 1) ns n
            (ground arith) (omega arith)
            (Linked-set p.zone_to_lru_map p.next_link (p.next_link + 1) z (some p.next_link) ns
              (omega arith) o k);
      zones =
          λ j. ground (arith, order-append ns (n ∷ []), occ-append j (order ns) (z ∷ []), o, h j);
      distinct = λ l. ground (
        arith,
        addresses-append ns (n ∷ []),
        occ-append l (addresses ns) (p.next_link ∷ []),
        d l,
        Linked-fresh p.zone_to_lru_map p.next_link ns k,
      );
    }
