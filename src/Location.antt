-- ===== src/Location.antt =====
-- CHUNK_POINTER of include/znutil.h: where on the device the chunk of a location lies.
use native.Mathlib.Nat.{le-div_iff_mul-le}
use znworkload.Prelude.{
  ℕ, suc, ◌+◌, ◌*◌, ◌/◌, ◌^◌, ◌≤◌, ◌<◌, ◌≡◌, ◌≢◌, ◌⊎◌, inl, inr, sym, ap, arith, dec_lt,
}
use znworkload.Backend.{chunk_pointer}

-- A device of zones of `zone_size` bytes, of which `zone_cap` hold data in chunks of `chunk_size`.
pub record Geometry (num_zones zone_size zone_cap chunk_size : ℕ) : Type 0 where
  pub chunk_pos : 0 < chunk_size
  pub cap_fits : zone_cap ≤ zone_size
  pub addressed : num_zones * zone_size < 2 ^ 64

module _ (n size cap chunk : ℕ) (g : Geometry n size cap chunk) where
  chunk_inside : (c : ℕ) → c < cap / chunk → c * chunk + chunk ≤ cap
  chunk_inside c h = grind (arith, (le-div_iff_mul-le {x = suc c} {y = cap} g.chunk_pos).0 h)

  pub zone_inside : (z : ℕ) → z < n → size * z + size ≤ n * size
  zone_inside z h = grind arith

  -- On a device whose bytes fit in 64 bits, and whose zones hold at least their capacity, the
  -- pointer of a chunk of a zone is computed without wrap-around, does not lie before its zone's
  -- start, and the chunk ends within its zone's capacity.
  pub chunk_pointer-bounds :
      (c z : ℕ)
      → c < cap / chunk
      → z < n
      → (chunk_pointer size chunk c z ≡ size * z + c * chunk)
        × (size * z ≤ chunk_pointer size chunk c z)
        × (chunk_pointer size chunk c z + chunk ≤ size * z + cap)
  unfolding chunk_pointer
  chunk_pointer-bounds c z hc hz =
      let i = chunk_inside c hc in
      let j = zone_inside z hz in omega (arith, i, j, g.cap_fits, g.addressed)

  zones_apart : (z z' : ℕ) → z < z' → size * z + size ≤ size * z'
  zones_apart z z' h = grind arith

  chunks_apart : (c c' : ℕ) → c < c' → c * chunk + chunk ≤ c' * chunk
  chunks_apart c c' h = grind arith

  -- The bytes of one chunk end where those of the other begin, or before.
  abbrev pub Before : ℕ → ℕ → ℕ → ℕ → Type 0
  Before c z c' z' = chunk_pointer size chunk c z + chunk ≤ chunk_pointer size chunk c' z'

  before :
      (c z c' z' : ℕ)
      → c < cap / chunk
      → z < n
      → c' < cap / chunk
      → z' < n
      → ((z < z') ⊎ ((z ≡ z') × (c < c')))
      → Before c z c' z'
  before c z c' z' hc hz hc' hz' (inl h) = omega (
    arith,
    chunk_pointer-bounds c z hc hz,
    chunk_pointer-bounds c' z' hc' hz',
    zones_apart z z' h,
    g.cap_fits,
  )
  before c z c' z' hc hz hc' hz' (inr (e, h)) = omega (
    arith,
    ap (λ (t : ℕ). size * t) e,
    chunk_pointer-bounds c z hc hz,
    chunk_pointer-bounds c' z' hc' hz',
    chunks_apart c c' h,
  )

  -- On a device whose bytes fit in 64 bits, and whose zones hold at least their capacity, the
  -- bytes of two different chunks of the zones do not overlap.
  pub chunk_pointer-disjoint :
      (c z c' z' : ℕ)
      → c < cap / chunk
      → z < n
      → c' < cap / chunk
      → z' < n
      → ((z ≢ z') ⊎ (c ≢ c'))
      → Before c z c' z' ⊎ Before c' z' c z
  chunk_pointer-disjoint c z c' z' hc hz hc' hz' d = elim (dec_lt z z') [
    | yes h ↦ inl (before c z c' z' hc hz hc' hz' (inl h))
    | no n ↦ elim (dec_lt z' z) [
      | yes h ↦ inr (before c' z' c z hc' hz' hc hz (inl h))
      | no m ↦
          let same : z ≡ z' = omega arith in
          elim (dec_lt c c') [
            | yes h ↦ inl (before c z c' z' hc hz hc' hz' (inr (same, h)))
            | no k ↦ inr (before c' z' c z hc' hz' hc hz (inr (sym same, ground arith)))
          ]
    ]
  ]
