-- ===== src/EvictPolicy/Start.antt =====
-- zn_evict_policy_init gives a policy that satisfies its invariant.
use znworkload.Prelude.{
  ℕ, zero, suc, ◌+◌, ◌<◌, ◌≡◌, ◌≢◌, ◌^◌, refl, ap, sym, subst, ◌∙◌, false, none, some, arith,
  length, get_elem?, count,
}
use znworkload.Run.{Returns}
use znworkload.Backend.{Pair}
use znworkload.Minheap.Insert.{init-IsValid}
use znworkload.Promotional.{promotional_init}
use znworkload.Promotional.Lru
use znworkload.Promotional.Refines.{promotional_init-Inv}
use znworkload.ChunkPolicy.{PolicyChunk, PoolZone, ptr_zone, ptr_chunk, chunk_ptr}
use znworkload.ChunkPolicy.Invariant.{Inv, ZonePlaced}
use znworkload.EvictPolicy.{
  EvictPolicy, promotional, by_chunk, PolicyType, zone, promote_zone, chunk, init_chunks, init_pool,
  chunk_init, evict_policy_init, get_cache_size,
}

length-init_chunks : (m : ℕ → Pair) (k c : ℕ) → length (init_chunks m k c) ≡ k
unfolding init_chunks
length-init_chunks m zero c = refl
length-init_chunks m (suc k) c = omega (arith, length-init_chunks m k (c + 1))

get_elem?-init_chunks :
    (m : ℕ → Pair) (k c j : ℕ) (zp : Pair)
    → get_elem? (init_chunks m k c) j ≡ some zp
    → zp.in_use ≡ false
unfolding init_chunks
get_elem?-init_chunks m zero c j zp e = cc
get_elem?-init_chunks m (suc k) c zero zp e = ground arith
get_elem?-init_chunks m (suc k) c (suc j) zp e = get_elem?-init_chunks m k (c + 1) j zp e

count-init_chunks : (m : ℕ → Pair) (k c : ℕ) → count (λ x. x.in_use) (init_chunks m k c) ≡ 0
unfolding init_chunks
count-init_chunks m zero c = refl
count-init_chunks m (suc k) c = omega (arith, count-init_chunks m k (c + 1))

-- The policy's own invariant.
abbrev pub Holds : EvictPolicy → Type 0
Holds (promotional p) = Lru.Inv p
Holds (by_chunk p) = Inv p

module _ (zones : ℕ → PoolZone) (chunks : ℕ → ℕ → Pair) (max : ℕ) where
  abbrev fresh : ℕ → PoolZone
  fresh z = record (zones z) {
    chunks_in_use = 0;
    filled = false;
    chunks = init_chunks (chunks z) max 0;
  }

  get_elem?-init_pool :
      (k z j : ℕ) (pz : PoolZone)
      → get_elem? (init_pool zones chunks max k z) j ≡ some pz
      → (pz ≡ fresh (z + j)) × (j < k)
  unfolding init_pool
  get_elem?-init_pool zero z j pz e = cc
  get_elem?-init_pool (suc k) z zero pz e = (ground arith, omega arith)
  get_elem?-init_pool (suc k) z (suc j) pz e =
      let (same, l) = get_elem?-init_pool k (z + 1) j pz e in
      (ground (arith, same), omega (arith, l))

  module _ (nr_zones : ℕ) (zeroed : (z : ℕ) → (zones z).pqueue_entry ≡ none) (some_chunk : 0 < max)
      (small : max < 2 ^ 32) (some_zone : 0 < nr_zones) where
    abbrev start : PolicyChunk
    start = chunk_init zones chunks nr_zones max

    fresh-placed : (z : ℕ) → z < nr_zones → ZonePlaced start z (fresh z)
    unfolding chunk_init
    fresh-placed z l = record {
      size = length-init_chunks (chunks z) max 0;
      counted = sym (count-init_chunks (chunks z) max 0);
      at_place =
          λ c zp e u. absurd (ground (arith, u, get_elem?-init_chunks (chunks z) max 0 c zp e));
      in_lru = λ c zp e. ground (arith, get_elem?-init_chunks (chunks z) max 0 c zp e);
      key = λ c h.
          let at_zone : ptr_zone (chunk_ptr z c) ≡ z = omega (arith, h, small) in
          let at_chunk : ptr_chunk (chunk_ptr z c) ≡ c = omega (arith, h, small) in
          rw (at_zone, at_chunk) (ground (arith, l, h));
      queued = rw (zeroed z) tt;
    }

    pub chunk_init-Inv : Inv start
    unfolding chunk_init
    chunk_init-Inv = record {
      lru = record { linked = tt; zones = λ i. refl; distinct = λ i. omega arith };
      heap = (init-IsValid (λ _. none) 0 nr_zones some_zone (λ a h. refl)).0;
      placed = λ z pz e.
          let (same, l) = get_elem?-init_pool nr_zones 0 z pz e in
          let whole : pz ≡ fresh z = same ∙ (let e : 0 + z ≡ z = omega arith in ap fresh e) in
          subst (ZonePlaced start z) (sym whole) (fresh-placed z l);
      in_pool = λ ptr o. absurd (omega (arith, o));
      max_pos = some_chunk;
      max_small = small;
    }

    -- Both implemented policies start with their invariant, and with nothing in the cache.
    pub evict_policy_init-Started :
        (zone_cap chunk_sz : ℕ) (type : PolicyType)
        → type ≢ zone
        → Returns
            (λ p. Holds p × (get_cache_size zone_cap chunk_sz p ≡ 0))
            (evict_policy_init zones chunks nr_zones max type)
    unfolding evict_policy_init get_cache_size promotional_init chunk_init
    evict_policy_init-Started cap sz promote_zone d = (promotional_init-Inv max, omega arith)
    evict_policy_init-Started cap sz chunk d = (chunk_init-Inv, omega arith)
    evict_policy_init-Started cap sz zone d = absurd (d refl)
