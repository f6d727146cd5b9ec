-- ===== src/Disk/Confined.antt =====
-- When zn_write_out stays in its chunk: its calls of pwrite, all of WRITE_GRANULARITY = 4096 bytes,
-- end with a chunk whose size is a multiple of that, if none of them is short.
use znworkload.Prelude.{
  ℕ, zero, suc, ◌+◌, ◌%◌, ◌/◌, ◌≢◌, ◌^◌, ◌≤◌, ◌<◌, ◌≡◌, ◌∙◌, ap, ◌⊎◌, inl, inr, none, some, arith,
  ltb, ◌==◌, u64, Bool-cases, Option-cases,
}
use znworkload.Run.{Returns, Returns-map}
use znworkload.Backend.{Pair, chunk_pointer}
use znworkload.Location.{Geometry, chunk_pointer-bounds, chunk_pointer-disjoint, zone_inside}
use znworkload.Disk.{Posix, gen_write_buffer, write_loop, write_out, write_chunk}
use znworkload.Disk.Writes.{Documented}

-- A pwrite that succeeds writes all that it was given, and one that fails leaves the bytes outside
-- its range.
pub record WholeWrites {World : Type 0} (posix : Posix World) : Type 0 where
  pub whole :
      (w w' : World) (buffer : ℕ → ℕ) (n off k : ℕ)
      → posix.pwrite w buffer n off ≡ (w', some k)
      → k ≡ n
  pub spared :
      (w w' : World) (buffer : ℕ → ℕ) (n off a : ℕ)
      → posix.pwrite w buffer n off ≡ (w', none)
      → (a < off) ⊎ (off + n ≤ a)
      → posix.bytes w' a ≡ posix.bytes w a

module _ {World : Type 0} (posix : Posix World) (d : Documented posix) (h : WholeWrites posix)
    (buffer : ℕ → ℕ) (chunk_sz wp : ℕ) (blocks : chunk_sz % 4096 ≡ 0)
    (fits : wp + chunk_sz < 2 ^ 64) where
  -- Nothing outside the chunk has changed.
  abbrev pub Confined : World → World → Type 0
  Confined w w' = (a : ℕ) → (a < wp) ⊎ (wp + chunk_sz ≤ a) → posix.bytes w' a ≡ posix.bytes w a

  write_loop-Confined :
      (fuel : ℕ) (w₀ w : World) (total : ℕ)
      → 0 < fuel
      → chunk_sz < total + fuel
      → total ≤ chunk_sz
      → total % 4096 ≡ 0
      → Confined w₀ w
      → Returns (λ r. Confined w₀ r.0) (write_loop posix fuel buffer chunk_sz 4096 wp w total)
  unfolding write_loop
  write_loop-Confined zero w₀ w total z f t b c = omega arith
  write_loop-Confined (suc fuel) w₀ w total z f t b c =
      let call = posix.pwrite w (λ i. buffer (total + i)) 4096 (u64 (wp + total)) in
      elim (Bool-cases (ltb total chunk_sz)) [
        | inr end ↦ rw end c
        | inl below ↦
            let under : total < chunk_sz = ground (arith, below) in
            let room : total + 4096 ≤ chunk_sz = omega (arith, under, blocks, b) in
            let at : u64 (wp + total) ≡ wp + total = omega (arith, under, fits) in
            elim (Option-cases call.1) [
              | inl e ↦
                  rw (below, e)
                    (λ a o.
                      d.fsync_bytes call.0 a
                      ∙ h.spared w call.0 (λ i. buffer (total + i)) 4096 (u64 (wp + total)) a
                          (ap (λ o. (call.0, o)) e)
                          (elim o [
                            | inl x ↦ inl (omega (arith, at, x))
                            | inr x ↦ inr (omega (arith, at, x, room))
                          ])
                      ∙ c a o)
              | inr (n, e) ↦
                  let step : call ≡ (call.0, some n) = ap (λ o. (call.0, o)) e in
                  let all : n ≡ 4096 =
                    h.whole w call.0 (λ i. buffer (total + i)) 4096 (u64 (wp + total)) n step in
                  let next : Confined w₀ (posix.fsync call.0) = λ a o.
                    d.fsync_bytes call.0 a
                    ∙ d.others w call.0 (λ i. buffer (total + i)) 4096 (u64 (wp + total)) n a step
                        (elim o [
                          | inl x ↦ inl (omega (arith, at, x))
                          | inr x ↦ inr (omega (arith, at, x, room, all))
                        ])
                    ∙ c a o in
                  elim (Bool-cases (posix.errno (posix.fsync call.0) == 0)) [
                    | inl good ↦
                        let sum : u64 (total + n) ≡ total + 4096 = omega (arith, all, room, fits) in
                        rw (below, e, good, sum)
                          (write_loop-Confined fuel w₀ (posix.fsync call.0) (total + 4096)
                            (omega (arith, f, room)) (omega (arith, f)) room (omega (arith, b))
                            next)
                    | inr bad ↦ rw (below, e, bad) next
                  ]
            ]
      ]

  -- On documented system calls, if the chunk size is a multiple of 4096, no pwrite that succeeds is
  -- short, and the chunk fits in 64 bits, then zn_write_out returns, and whether it returns 0 or -1,
  -- nothing outside the chunk has changed.
  pub write_out-Confined :
      (w : World) → Returns (λ r. Confined w r.0) (write_out posix buffer chunk_sz 4096 wp w)
  unfolding write_out
  write_out-Confined w =
      write_loop-Confined (chunk_sz + 1) w (posix.reset_errno w) 0 (omega arith) (omega arith)
        (omega arith) (omega arith) (λ a o. d.errno_bytes w a)

module _ {World : Type 0} (posix : Posix World) (d : Documented posix) (h : WholeWrites posix)
    (nr_zones zone_size zone_cap chunk_sz : ℕ) (g : Geometry nr_zones zone_size zone_cap chunk_sz)
    (blocks : chunk_sz % 4096 ≡ 0) (at other : Pair)
    (in_zone : at.chunk_offset < zone_cap / chunk_sz) (in_device : at.zone < nr_zones) where
  -- On such system calls and a device whose chunks lie apart, the write of zn_cache_get to a location
  -- returns, and whether it returns 0 or -1, it has changed no byte of another chunk.
  pub write_chunk-Confined :
      (id : ℕ) (random_buffer : ℕ → ℕ) (w : World) (i : ℕ)
      → other.chunk_offset < zone_cap / chunk_sz
      → other.zone < nr_zones
      → ((at.zone ≢ other.zone) ⊎ (at.chunk_offset ≢ other.chunk_offset))
      → i < chunk_sz
      → Returns
          (λ r.
            posix.bytes r.0 (chunk_pointer zone_size chunk_sz other.chunk_offset other.zone + i)
            ≡ posix.bytes w (chunk_pointer zone_size chunk_sz other.chunk_offset other.zone + i))
          (write_chunk posix zone_size chunk_sz id random_buffer at w)
  unfolding write_chunk
  write_chunk-Confined id random_buffer w i hc hz apart inside =
      let wp = chunk_pointer zone_size chunk_sz at.chunk_offset at.zone in
      let buffer = gen_write_buffer id random_buffer in
      let (_, _, end) =
        chunk_pointer-bounds nr_zones zone_size zone_cap chunk_sz g at.chunk_offset at.zone in_zone
          in_device in
      let last = zone_inside nr_zones zone_size zone_cap chunk_sz g at.zone in_device in
      let fits : wp + chunk_sz < 2 ^ 64 = omega (arith, end, last, g.cap_fits, g.addressed) in
      let sides =
        chunk_pointer-disjoint nr_zones zone_size zone_cap chunk_sz g at.chunk_offset at.zone
          other.chunk_offset other.zone in_zone in_device hc hz apart in
      Returns-map (λ (r : World × ℕ). Confined posix d h buffer chunk_sz wp blocks fits w r.0)
        (λ r.
          posix.bytes r.0 (chunk_pointer zone_size chunk_sz other.chunk_offset other.zone + i)
          ≡ posix.bytes w (chunk_pointer zone_size chunk_sz other.chunk_offset other.zone + i))
        (write_out posix buffer chunk_sz 4096 wp w)
        (write_out-Confined posix d h buffer chunk_sz wp blocks fits w)
        (λ r c. c (chunk_pointer zone_size chunk_sz other.chunk_offset other.zone + i) (elim sides [
          | inl after ↦ inr (omega (arith, after))
          | inr before ↦ inl (omega (arith, before, inside))
        ]))
