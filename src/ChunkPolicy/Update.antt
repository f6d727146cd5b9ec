-- ===== src/ChunkPolicy/Update.antt =====
-- zn_policy_chunk_update: a chunk that is written joins the queue, and one that is read moves to its
-- end.
use znworkload.Prelude.{
  ℕ, ◌<◌, ◌≡◌, refl, ap, sym, ◌∙◌, true, false, some, List, [], ◌∷◌, ◌++◌, if◌then◌else◌, arith,
  occ, occ-append, get_elem?, Option-cases, Bool-cases, inl, inr, ltb,
}
use znworkload.Run.{ok, Returns}
use znworkload.Backend.{Pair}
use znworkload.Promotional.{read, link_data, delete_link, promote, push_zone}
use znworkload.Promotional.Lru
use znworkload.Promotional.Refines.{promote-Accessed, Accessed}
use znworkload.ChunkPolicy.{PolicyChunk, chunk_ptr, ptr_zone, chunk_read, push_chunk}
use znworkload.ChunkPolicy.Invariant.{Inv, lru_of, order_of}

-- A new order of the same chunks.
pub Reordered-Inv :
    (p q : PolicyChunk)
    → Inv p
    → q.zone_pool ≡ p.zone_pool
    → q.invalid_pqueue ≡ p.invalid_pqueue
    → q.max_zone_chunks ≡ p.max_zone_chunks
    → ((ptr : ℕ) → p.chunk_keys ptr ≡ true → q.chunk_keys ptr ≡ true)
    → ((ptr : ℕ) → occ ptr (order_of q) ≡ occ ptr (order_of p))
    → Lru.Inv (lru_of q)
    → Inv q
Reordered-Inv p q v pool heap max keys same l = record {
  lru = l;
  heap = rw heap (v.heap);
  placed = λ z pz e.
      let o = v.placed z pz (ap (λ x. get_elem? x z) (sym pool) ∙ e) in
      record {
        size = ground (arith, o.size, max);
        counted = o.counted;
        at_place = o.at_place;
        in_lru = λ c zp f. same (chunk_ptr z c) ∙ o.in_lru c zp f;
        key = λ c h. keys (chunk_ptr z c) (o.key c (ground (arith, h, max)));
        queued = rw heap (o.queued);
      };
  in_pool = λ ptr h.
      let o = v.in_pool ptr (ground (arith, h, same ptr)) in
      record {
        zone = o.zone;
        chunk = o.chunk;
        zone_found = ap (λ x. get_elem? x (ptr_zone ptr)) pool ∙ o.zone_found;
        chunk_found = o.chunk_found;
      };
  max_pos = ground (arith, v.max_pos, max);
  max_small = ground (arith, v.max_small, max);
}

-- The order of the chunks after a read of one of them.
abbrev pub touched : ℕ → List ℕ → List ℕ
touched ptr ptrs = if ltb 0 (occ ptr ptrs) then Lru.erase ptr ptrs ++ ptr ∷ [] else ptrs

-- What a read leaves.
pub record ChunkUsed (p : PolicyChunk) (ptr : ℕ) (q : PolicyChunk) : Type 0 where
  pub inv : Inv q
  pub order : order_of q ≡ touched ptr (order_of p)
  pub same_pool : q.zone_pool ≡ p.zone_pool
  pub same_heap : q.invalid_pqueue ≡ p.invalid_pqueue

occ-touched : (ptr j : ℕ) (ptrs : List ℕ) → occ j (touched ptr ptrs) ≡ occ j ptrs
occ-touched ptr j ptrs = elim (Bool-cases (ltb 0 (occ ptr ptrs))) [
  | inl there ↦
      let h : 0 < occ ptr ptrs = ground (arith, there) in
      rw there
        (omega (arith, Lru.occ-erase ptr j ptrs h, occ-append j (Lru.erase ptr ptrs) (ptr ∷ [])))
  | inr gone ↦ rw gone refl
]

module _ (p : PolicyChunk) (v : Inv p) (ptr : ℕ) where
  abbrev location : Pair
  location = record { zone = ptr; chunk_offset = 0; id = 0; in_use = false }

  promoted :
      (node : ℕ)
      → p.chunk_to_lru_map ptr ≡ some node
      → link_data node p.lru_queue ≡ ok ptr
      → Accessed
          (lru_of p)
          location
          read
          (push_zone (record (lru_of p) { lru_queue = delete_link node p.lru_queue }) ptr ptr)
  unfolding promote
  promoted node e found = rw found at (promote-Accessed (lru_of p) location node v.lru e)

  -- The result of a read is that of the promotional policy on the same queue.
  moved-ChunkUsed :
      (node : ℕ)
      → p.chunk_to_lru_map ptr ≡ some node
      → (payload : ℕ) × (link_data node p.lru_queue ≡ ok payload)
        × ChunkUsed p ptr
            (push_chunk (record p { lru_queue = delete_link node p.lru_queue }) ptr payload)
  moved-ChunkUsed node e =
      let there : 0 < occ ptr (order_of p) = ground (arith, v.lru.zones ptr, e) in
      let (found, erased) =
        Lru.link_data-order p.chunk_to_lru_map p.next_link ptr node p.lru_queue v.lru.linked
          v.lru.distinct e there in
      let after = promoted node e found in
      let same : (j : ℕ)
          → occ j (
              Lru.order (
                delete_link node p.lru_queue
                ++ record { address = p.next_link; payload = ptr } ∷ []))
            ≡ occ j (order_of p) =
        λ j. ap (occ j) after.1 ∙ occ-touched ptr j (order_of p) in
      (
        ptr,
        found,
        record {
          inv = Reordered-Inv p _ v refl refl refl (λ k h. ground (arith, h)) same after.0;
          order = after.1;
          same_pool = refl;
          same_heap = refl;
        },
      )

  pub chunk_read-ChunkUsed : Returns (ChunkUsed p ptr) (chunk_read p ptr (p.chunk_to_lru_map ptr))
  unfolding chunk_read
  chunk_read-ChunkUsed = elim (Option-cases (p.chunk_to_lru_map ptr)) [
    | inl e ↦
        let gone : occ ptr (order_of p) ≡ 0 = ground (arith, v.lru.zones ptr, e) in
        rw e (record { inv = v; order = ground (arith, gone); same_pool = refl; same_heap = refl })
    | inr (node, e) ↦ let (payload, found, used) = moved-ChunkUsed node e in rw (e, found) used
  ]
