-- ===== src/Promotional/Refines.antt =====
-- The operations of the promotional policy, described on the plain list of zones.
use znworkload.Prelude.{
  ℕ, ◌+◌, ◌<◌, ◌≡◌, ◌^◌, ◌⊎◌, inl, inr, refl, Bool, true, some, none, List, [], ◌∷◌, ◌++◌, ◌==◌,
  if◌then◌else◌, ltb, minus_one, length, occ, arith, Option-cases, Bool-cases,
}
use znworkload.Run.{Returns}
use znworkload.Backend.{Pair}
use znworkload.Promotional.{
  Link, Policy, set_key, delete_link, push_zone, promote, promotional_update, get_zone_to_evict,
  IoType, read, write, promotional_init,
}
use znworkload.Promotional.Lru.{
  Inv, order, erase, link_data-order, push_zone-Inv, Linked-delete, Linked-set, addresses-delete,
  occ-erase, order-append,
}

-- The write fills its zone.
abbrev pub fills : Policy → Pair → Bool
fills p location = location.chunk_offset + 1 == p.zone_max_chunks

-- What an access does to the order: a zone that has just been filled goes to the end, a read moves
-- a zone of the list to the end, and any other access changes nothing.
abbrev pub accessed : Policy → Pair → IoType → List ℕ → List ℕ
accessed p location write zones = if fills p location then zones ++ location.zone ∷ [] else zones
accessed p location read zones =
    if ltb 0 (occ location.zone zones)
    then erase location.zone zones ++ location.zone ∷ []
    else zones

-- The policy's values fit in 32 bits, and a zone has a chunk.
pub record Fits (p : Policy) (location : Pair) : Type 0 where
  pub chunks_pos : 0 < p.zone_max_chunks
  pub chunks_small : p.zone_max_chunks < 2 ^ 32
  pub offset_small : location.chunk_offset + 1 < 2 ^ 32

abbrev pub Accessed : Policy → Pair → IoType → Policy → Type 0
Accessed p location io q =
    Inv q
    × (order q.lru_queue ≡ accessed p location io (order p.lru_queue))
    × (q.zone_max_chunks ≡ p.zone_max_chunks)

push-Accessed :
    (p : Policy) (location : Pair)
    → Inv p
    → p.zone_to_lru_map location.zone ≡ none
    → fills p location ≡ true
    → Accessed p location write (push_zone p location.zone location.zone)
push-Accessed p location v absent full = (
  push_zone-Inv p p.lru_queue location.zone v.linked (ground (arith, v.zones location.zone))
      (λ j n. v.zones j) v.distinct,
  ground (
    arith,
    order-append p.lru_queue (record { address = p.next_link; payload = location.zone } ∷ []),
  ),
  refl,
)

pub promote-Accessed :
    (p : Policy) (location : Pair) (l : ℕ)
    → Inv p
    → p.zone_to_lru_map location.zone ≡ some l
    → Returns (Accessed p location read) (promote p location.zone (some l))
unfolding promote
promote-Accessed p location l v e =
    let z = location.zone in
    let there : 0 < occ z (order p.lru_queue) = ground (arith, v.zones z) in
    let (found, erased) =
      link_data-order p.zone_to_lru_map p.next_link z l p.lru_queue v.linked v.distinct e there in
    let rest = delete_link l p.lru_queue in
    let n : Link = record { address = p.next_link; payload = z } in
    rw found (
      push_zone-Inv p rest z (Linked-delete p.zone_to_lru_map p.next_link l p.lru_queue v.linked)
          (ground (arith, erased, occ-erase z z (order p.lru_queue) there, v.zones z))
          (λ j d. ground (arith, erased, occ-erase z j (order p.lru_queue) there, v.zones j))
          (λ j. omega (arith, addresses-delete l j p.lru_queue, v.distinct j)),
      ground (arith, erased, order-append rest (n ∷ []), there),
      refl,
    )

-- If the map leads to exactly the links of the list, the sizes fit in 32 bits, and a zone that a
-- write fills is not in the list, then zn_policy_promotional_update returns and keeps that
-- invariant; a write that fills its zone adds the zone at the end of the list, a read of a zone of
-- the list moves it to the end, and any other access leaves the order as it is.
pub promotional_update-Accessed :
    (p : Policy) (location : Pair) (io : IoType)
    → Inv p
    → Fits p location
    → (io ≡ write → fills p location ≡ true → p.zone_to_lru_map location.zone ≡ none)
    → Returns (Accessed p location io) (promotional_update p location io)
unfolding promotional_update promote
promotional_update-Accessed p location write v f once = elim (Bool-cases (fills p location)) [
  | inl full ↦ ground (arith, f, full, push-Accessed p location v (once refl full) full)
  | inr more ↦ ground (arith, f, more, v)
]
promotional_update-Accessed p location read v f once =
    elim (Option-cases (p.zone_to_lru_map location.zone)) [
      | inl absent ↦ ground (arith, absent, v, v.zones location.zone)
      | inr (l, e) ↦ rw e (promote-Accessed p location l v e)
    ]

-- What eviction returns: -1 from the empty list, which stays, or else the head of the list.
abbrev pub Evicts : Policy → Policy × ℕ → Type 0
Evicts p (q, r) =
    ((order p.lru_queue ≡ []) × (r ≡ minus_one) × (q ≡ p))
    ⊎ (Inv q × (order p.lru_queue ≡ r ∷ order q.lru_queue) × (q.zone_to_lru_map r ≡ none))

-- The head of the queue leaves it, and the map forgets it.
pub popped-Inv :
    (p : Policy) (n : Link) (ns : List Link)
    → p.lru_queue ≡ n ∷ ns
    → Inv p
    → Inv (record p { lru_queue = ns; zone_to_lru_map = set_key p.zone_to_lru_map n.payload none })
popped-Inv p n ns e v =
    let gone : occ n.payload (order ns) ≡ 0 = ground (arith, v.zones n.payload, e, v.linked) in
    record {
      linked =
          Linked-set p.zone_to_lru_map p.next_link p.next_link n.payload none ns (omega arith) gone
            (ground (arith, v.linked, e));
      zones = λ z. ground (arith, v.zones z, e, gone);
      distinct = λ l. ground (arith, v.distinct l, e);
    }

pop-Evicts :
    (p : Policy) (ns : List Link)
    → p.lru_queue ≡ ns
    → length ns < 2 ^ 32
    → Inv p
    → Returns (Evicts p) (get_zone_to_evict p)
unfolding get_zone_to_evict
pop-Evicts p [] e s v = ground (arith, e)
pop-Evicts p (n ∷ ns) e s v = let v' = popped-Inv p n ns e v in ground (arith, e, v')

-- If the map leads to exactly the links of the list, and the list has fewer than 2^32 zones, then
-- zn_policy_promotional_get_zone_to_evict returns -1 and changes nothing if the list is empty;
-- otherwise it returns the first zone, the order is that of the others, the map forgets the zone,
-- and the invariant holds.
pub get_zone_to_evict-Evicts :
    (p : Policy) → Inv p → length p.lru_queue < 2 ^ 32 → Returns (Evicts p) (get_zone_to_evict p)
get_zone_to_evict-Evicts p v s = pop-Evicts p p.lru_queue refl s v

pub promotional_init-Inv : (max : ℕ) → Inv (promotional_init max)
unfolding promotional_init
promotional_init-Inv max = record { linked = tt; zones = λ z. refl; distinct = λ l. omega arith }
