-- ===== src/Zsm/Init.antt =====
-- zsm_init: every zone is free, and the free queue lists them in order.
use znworkload.Prelude.{
  ℕ, zero, suc, ◌+◌, ◌/◌, ◌≤◌, ◌<◌, ◌≡◌, refl, [], some, arith, length, get_elem?, get_elem?-lt,
  count, occ, ◌&&◌, ltb, leb, if◌then◌else◌, ◌^◌, ◌==◌, Bool-cases, inl, inr,
}
use native.Mathlib.Nat.{le-div_iff_mul-le}
use znworkload.Run.{Returns}
use znworkload.Backend.{Backend}
use znworkload.Zsm.{Zone, is_free, free, init, init_zones, init_free}
use znworkload.Zsm.Invariant.{Inv}

abbrev fresh : ℕ → Zone
fresh i = record { state = free; zone_id = i; chunk_offset = 0; invalid = [] }

length-init_zones : (k i : ℕ) → length (init_zones k i) ≡ k
unfolding init_zones
length-init_zones zero i = refl
length-init_zones (suc k) i = omega (arith, length-init_zones k (i + 1))

length-init_free : (k i : ℕ) → length (init_free k i) ≡ k
unfolding init_free
length-init_free zero i = refl
length-init_free (suc k) i = omega (arith, length-init_free k (i + 1))

get_elem?-init_zones :
    (k i j : ℕ) (z : Zone) → get_elem? (init_zones k i) j ≡ some z → z ≡ fresh (i + j)
unfolding init_zones
get_elem?-init_zones zero i j z e = cc
get_elem?-init_zones (suc k) i zero z e = ground arith
get_elem?-init_zones (suc k) i (suc j) z e = ground (arith, get_elem?-init_zones k (i + 1) j z e)

occ-init_free : (k i j : ℕ) → occ j (init_free k i) ≡ (if leb i j && ltb j (i + k) then 1 else 0)
unfolding init_free
occ-init_free zero i j = ground arith
occ-init_free (suc k) i j = ground (arith, occ-init_free k (i + 1) j)

count-init_zones : (k i : ℕ) → count (λ z. is_free z.state) (init_zones k i) ≡ k
unfolding init_zones
count-init_zones zero i = refl
count-init_zones (suc k) i = omega (arith, count-init_zones k (i + 1))

-- If the numbers of zones and of chunks in a zone fit in 32 bits, the limit of active zones is
-- positive and fits in an int, and a chunk is not empty and fits in a zone, then zsm_init returns
-- a state with the invariant, no location held, and every zone in the free queue.
pub init-Inv :
    (num_zones fd zone_cap zone_size chunk_size max : ℕ) (backend : Backend)
    → num_zones < 2 ^ 32
    → 0 < max
    → max < 2 ^ 31
    → 0 < chunk_size
    → chunk_size ≤ zone_cap
    → zone_cap / chunk_size < 2 ^ 32
    → Returns
        (λ s. Inv s [] × (length s.free_queue ≡ num_zones))
        (init num_zones fd zone_cap zone_size chunk_size max backend)
unfolding init
init-Inv n fd cap size chunk max backend small some_max few pos fits chunks =
    elim (Bool-cases (chunk == 0)) [
      | inl e ↦ absurd (ground arith)
      | inr e ↦ rw e (
        record {
          sizes = record {
            zones_length = length-init_zones n 0;
            zones_small = small;
            max_pos = some_max;
            max_small = few;
            chunks_pos = (le-div_iff_mul-le pos).1 (omega arith);
            chunks_small = chunks;
          };
          zone_ok = λ i z e. ground (
            arith,
            get_elem?-init_zones n 0 i z e,
            occ-init_free n 0 i,
            get_elem?-lt (init_zones n 0) i e,
            length-init_zones n 0,
          );
          active_inside = λ i h. absurd (omega arith);
          free_inside = λ i h. ground (arith, occ-init_free n 0 i, length-init_zones n 0);
          all_held = tt;
          writers = refl;
          limit = omega arith;
          free_count = omega (arith, length-init_free n 0, count-init_zones n 0);
        },
        length-init_free n 0,
      )
    ]
