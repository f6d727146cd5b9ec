-- ===== src/Concurrent/Start.antt =====
-- The threads before their first call, as zn_init_cache leaves what they share with the promotional
-- policy.
use znworkload.Prelude.{
  ℕ, zero, suc, ◌<◌, ◌≡◌, ◌^◌, refl, true, Option, some, none, List, [], ◌∷◌, arith, get_elem?,
  length,
}
use znworkload.Zsm.{Zsm}
use znworkload.Zsm.Invariant
use znworkload.Cachemap.{empty_map}
use znworkload.Cachemap.Write.{empty_map-Inv}
use znworkload.Promotional.{promotional_init}
use znworkload.Promotional.Refines.{promotional_init-Inv}
use znworkload.Chunks.{Layout}
use znworkload.Concurrent.{System, Pc, idle}
use znworkload.Concurrent.Places.{fetches, reads, full_zone, publishes, number}
use znworkload.Concurrent.Held.{held_of}
use znworkload.Concurrent.Invariant.{Inv}

abbrev pub idles : ℕ → List Pc
idles zero = []
idles (suc n) = idle ∷ idles n

-- The shared parts of a new cache with the given counters of readers, and `n` threads without a call
abbrev pub initial : Layout → Zsm → (ℕ → ℕ) → ℕ → System
initial layout zs counters n = record {
  layout = layout;
  cache_map = empty_map zs.num_zones counters;
  eviction_policy = promotional_init zs.max_zone_chunks;
  zone_state = zs;
  contents = record { written = λ _ _. none; intact = true };
  threads = idles n;
}

idles-length : (n : ℕ) → length (idles n) ≡ n
idles-length zero = refl
idles-length (suc n) = omega (arith, idles-length n)

idles-held : (n : ℕ) → held_of (idles n) ≡ []
idles-held zero = refl
idles-held (suc n) = idles-held n

idles-number : (f : Pc → Option ℕ) (k n : ℕ) → f idle ≡ none → number f k (idles n) ≡ 0
idles-number f k zero e = refl
idles-number f k (suc n) e = ground (arith, e, idles-number f k n e)

idles-idle : (n i : ℕ) (t : Pc) → get_elem? (idles n) i ≡ some t → t ≡ idle
idles-idle zero i t e = cc
idles-idle (suc n) zero t e = ground arith
idles-idle (suc n) (suc i) t e = idles-idle n i t e

-- With the zone state manager's invariant, no location held and no readers counted, the threads
-- have the invariant before their first call.
pub initial-Inv :
    (layout : Layout) (zs : Zsm) (counters : ℕ → ℕ) (n : ℕ)
    → Invariant.Inv zs []
    → ((z : ℕ) → counters z ≡ 0)
    → n < 2 ^ 31
    → Inv (initial layout zs counters n)
unfolding empty_map promotional_init
initial-Inv layout zs counters n v unread few = record {
  alloc = rw (idles-held n) v;
  same_num = refl;
  few = omega (arith, idles-length n);
  claims = record {
    map_ok = empty_map-Inv zs.num_zones counters;
    writers = λ id. idles-number fetches id n refl;
    readers = λ z. ground (arith, unread z, idles-number reads z n refl);
  };
  tokens = record {
    policy_ok = promotional_init-Inv zs.max_zone_chunks;
    same_max = omega (arith, v.sizes.chunks_small);
    single = λ z. omega (arith, idles-number (full_zone zs.max_zone_chunks) z n refl);
    full = λ z h. absurd (omega (arith, h, idles-number (full_zone zs.max_zone_chunks) z n refl));
  };
  chunks = record {
    stored = λ id p e. absurd (ground arith);
    relies = λ i t e. rw (idles-idle n i t e) tt;
    small = λ i t e. rw (idles-idle n i t e) tt;
  };
  clears = record {
    vacant = λ z id p h e. absurd (ground arith);
    unpublished = λ z h. idles-number publishes z n refl;
    quiet = λ z h. idles-number reads z n refl;
  };
}
