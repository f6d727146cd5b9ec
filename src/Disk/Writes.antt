-- ===== src/Disk/Writes.antt =====
-- zn_write_out on system calls that behave as they are documented.
use znworkload.Prelude.{
  ℕ, zero, suc, ◌+◌, ◌^◌, ◌≤◌, ◌<◌, ◌≡◌, ◌≢◌, ◌∙◌, ap, ◌-◌, refl, dec_lt, ◌⊎◌, inl, inr, none, some,
  arith, ltb, ◌==◌, u64, minus_one, Bool-cases, Option-cases,
}
use znworkload.Run.{Returns}
use znworkload.Disk.{Posix, write_loop, write_out}

-- What the manual pages say: pwrite returns how many bytes it has written, at most as many as it
-- was asked to, and leaves the others; fsync and errno do not change what can be read.
pub record Documented {World : Type 0} (posix : Posix World) : Type 0 where
  pub count_le :
      (w w' : World) (buffer : ℕ → ℕ) (n off k : ℕ)
      → posix.pwrite w buffer n off ≡ (w', some k)
      → k ≤ n
  pub written :
      (w w' : World) (buffer : ℕ → ℕ) (n off k i : ℕ)
      → posix.pwrite w buffer n off ≡ (w', some k)
      → i < k
      → posix.bytes w' (off + i) ≡ buffer i
  pub others :
      (w w' : World) (buffer : ℕ → ℕ) (n off k a : ℕ)
      → posix.pwrite w buffer n off ≡ (w', some k)
      → (a < off) ⊎ (off + k ≤ a)
      → posix.bytes w' a ≡ posix.bytes w a
  pub fsync_bytes : (w : World) (a : ℕ) → posix.bytes (posix.fsync w) a ≡ posix.bytes w a
  pub errno_bytes : (w : World) (a : ℕ) → posix.bytes (posix.reset_errno w) a ≡ posix.bytes w a
  pub read :
      (w : World) (n off k i : ℕ) (chunk : ℕ → ℕ)
      → posix.pread w n off ≡ (some k, chunk)
      → i < k
      → chunk i ≡ posix.bytes w (off + i)

-- A pwrite of at least one byte that does not fail writes at least one.
pub record Progress {World : Type 0} (posix : Posix World) : Type 0 where
  pub progress :
      (w w' : World) (buffer : ℕ → ℕ) (n off k : ℕ)
      → 0 < n
      → posix.pwrite w buffer n off ≡ (w', some k)
      → 0 < k

module _ {World : Type 0} (posix : Posix World) (buffer : ℕ → ℕ) (to_write write_size wp : ℕ) where
  -- Some pwrite of the buffer has failed, or errno was set after it.
  pub record Failed : Type 0 where
    pub before : World
    pub total : ℕ
    pub failed :
        ((posix.pwrite before (λ i. buffer (total + i)) write_size (u64 (wp + total))).1 ≡ none)
        ⊎ (posix.errno (
              posix.fsync
                (posix.pwrite before (λ i. buffer (total + i)) write_size (u64 (wp + total))).0)
            ≢ 0)

  -- The first `total` bytes of the buffer are on the device.
  abbrev pub Filled : World → ℕ → Type 0
  Filled w total = (i : ℕ) → i < total → posix.bytes w (wp + i) ≡ buffer i

  -- Before the chunk, and from a write past its end on, nothing has changed.
  abbrev pub Untouched : World → World → Type 0
  Untouched w w' =
      (a : ℕ) → (a < wp) ⊎ (wp + to_write + write_size ≤ a) → posix.bytes w' a ≡ posix.bytes w a

  abbrev pub Wrote : World → World × ℕ → Type 0
  Wrote w (w', ret) =
      ((ret ≡ 0) × Filled w' to_write × Untouched w w') ⊎ ((ret ≡ minus_one) × Failed)

  module _ (d : Documented posix) (p : Progress posix) (fits : wp + to_write + write_size < 2 ^ 64)
      (pos : 0 < write_size) where
    -- One call of pwrite that writes `n` bytes.
    module _ (w w' : World) (total n : ℕ) (below : total < to_write)
        (step : posix.pwrite w (λ i. buffer (total + i)) write_size (u64 (wp + total))
          ≡ (w', some n)) where
      call : posix.pwrite w (λ i. buffer (total + i)) write_size (wp + total) ≡ (w', some n)
      call = let addressed : u64 (wp + total) ≡ wp + total = omega arith in rw addressed at step

      more : 0 < n
      more = p.progress w w' (λ j. buffer (total + j)) write_size (wp + total) n pos call

      count : n ≤ write_size
      count = d.count_le w w' (λ j. buffer (total + j)) write_size (wp + total) n call

      advanced : u64 (total + n) ≡ total + n
      advanced = omega (arith, count)

      Filled-next : Filled w total → Filled (posix.fsync w') (total + n)
      Filled-next filled i h = elim (dec_lt i total) [
        | yes old ↦
            d.fsync_bytes w' (wp + i)
            ∙ d.others w w' (λ j. buffer (total + j)) write_size (wp + total) n (wp + i) call
                (inl (omega arith))
            ∙ filled i old
        | no new ↦
            d.fsync_bytes w' (wp + i)
            ∙ (let e =
                  d.written w w' (λ j. buffer (total + j)) write_size (wp + total) n (i - total)
                    call (omega arith) in
                let f : wp + total + (i - total) ≡ wp + i = omega arith in
                let g : total + (i - total) ≡ i = omega arith in rw (f, g) at e)
      ]

      Untouched-next : (w₀ : World) → Untouched w₀ w → Untouched w₀ (posix.fsync w')
      Untouched-next w₀ untouched a h =
          d.fsync_bytes w' a
          ∙ d.others w w' (λ j. buffer (total + j)) write_size (wp + total) n a call
              (elim h [ inl b ↦ inl (omega arith) | inr b ↦ inr (omega (arith, count)) ])
          ∙ untouched a h

    write_loop-Wrote :
        (fuel : ℕ) (w₀ w : World) (total : ℕ)
        → 0 < fuel
        → to_write < total + fuel
        → total < to_write + write_size
        → Filled w total
        → Untouched w₀ w
        → Returns (Wrote w₀) (write_loop posix fuel buffer to_write write_size wp w total)
    unfolding write_loop
    write_loop-Wrote zero w₀ w total z f t filled untouched = omega arith
    write_loop-Wrote (suc fuel) w₀ w total z f t filled untouched =
        let c = posix.pwrite w (λ i. buffer (total + i)) write_size (u64 (wp + total)) in
        elim (Bool-cases (ltb total to_write)) [
          | inr end ↦ rw end (inl (refl, (λ i h. filled i (ground (arith, end))), untouched))
          | inl below ↦ elim (Option-cases c.1) [
            | inl e ↦
                rw (below, e) (inr (refl, record { before = w; total = total; failed = inl e }))
            | inr (n, e) ↦ elim (Bool-cases (posix.errno (posix.fsync c.0) == 0)) [
              | inl good ↦
                  let step : c ≡ (c.0, some n) = ap (λ o. (c.0, o)) e in
                  let b : total < to_write = ground (arith, below) in
                  let n1 = more w c.0 total n b step in
                  let n2 = count w c.0 total n b step in
                  let adv : u64 (total + n) ≡ total + n = advanced w c.0 total n b step in
                  rw (below, e, good, adv)
                    (write_loop-Wrote fuel w₀ (posix.fsync c.0) (total + n) (omega (arith, b))
                      (omega (arith, n1)) (omega (arith, n2, b))
                      (Filled-next w c.0 total n b step filled)
                      (Untouched-next w c.0 total n b step w₀ untouched))
              | inr bad ↦
                  rw (below, e, bad)
                    (inr (
                      refl,
                      record { before = w; total = total; failed = inr (ground (arith, bad)) },
                    ))
            ]
          ]
        ]

    -- On documented system calls whose successful pwrite makes progress, with a positive write
    -- size and a range that fits in 64 bits, zn_write_out returns. Either it returns 0, the whole
    -- buffer is on the device, and nothing has changed before the range or from the write size
    -- past its end on, or it returns -1 and some pwrite has failed or errno was set after it.
    pub write_out-Wrote :
        (w : World) → Returns (Wrote w) (write_out posix buffer to_write write_size wp w)
    unfolding write_out
    write_out-Wrote w =
        write_loop-Wrote (to_write + 1) w (posix.reset_errno w) 0 (omega arith) (omega arith)
          (omega arith) (λ i h. absurd (omega arith)) λ a h. d.errno_bytes w a
