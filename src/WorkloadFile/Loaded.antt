-- ===== src/WorkloadFile/Loaded.antt =====
-- read_workload returns, and what it has put in the buffer.
use znworkload.Prelude.{
  ℕ, zero, suc, ◌+◌, ◌-◌, ◌*◌, ◌<◌, ◌≤◌, ◌≡◌, ◌^◌, ◌⊎◌, inl, inr, refl, ap, sym, subst, ◌∙◌, true,
  false, ltb, ◌==◌, arith, u64, Bool-cases, ℕ_discrete,
}
use znworkload.Run.{ok, Returns, Returns-map}
use znworkload.WorkloadFile.{
  ReadResult, interrupted, failed, bytes_read, Bytes, store, read_loop, read_workload,
}

-- What the manual page says of `read` on a file: at most as many bytes as asked for, which are the
-- file's next ones; and a bound on the signals that interrupt a call.
pub record Documented {World : Type 0} (read : World → ℕ → World × ReadResult) : Type 0 where
  pub file : ℕ → ℕ
  pub position : World → ℕ
  pub signals : World → ℕ
  pub count_le : (w : World) (n k : ℕ) (bytes : ℕ → ℕ) → (read w n).1 ≡ bytes_read k bytes → k ≤ n
  pub next_bytes :
      (w : World) (n k i : ℕ) (bytes : ℕ → ℕ)
      → (read w n).1 ≡ bytes_read k bytes
      → i < k
      → bytes i ≡ file (position w + i)
  pub advances :
      (w : World) (n k : ℕ) (bytes : ℕ → ℕ)
      → (read w n).1 ≡ bytes_read k bytes
      → (position (read w n).0 ≡ position w + k) × (signals (read w n).0 ≤ signals w)
  pub interrupts :
      (w : World) (n : ℕ)
      → (read w n).1 ≡ interrupted
      → (position (read w n).0 ≡ position w) × (signals (read w n).0 < signals w)

result-cases :
    (r : ReadResult)
    → (r ≡ interrupted) ⊎ (r ≡ failed) ⊎ ((n : ℕ) × (bytes : ℕ → ℕ) × (r ≡ bytes_read n bytes))
result-cases interrupted = inl refl
result-cases failed = inr (inl refl)
result-cases (bytes_read n bytes) = inr (inr (n, bytes, refl))

module _ {World : Type 0} (read : World → ℕ → World × ReadResult) (size : ℕ) where
  read_loop-next :
      (fuel : ℕ) (w : World) (buffer : Bytes) (total n : ℕ) (bytes : ℕ → ℕ)
      → total < size
      → (read w (size - total)).1 ≡ bytes_read n bytes
      → 0 < n
      → total + n < 2 ^ 64
      → read_loop read (suc fuel) size w buffer total
        ≡ read_loop read fuel size
            (read w (size - total)).0
            (store buffer (4 * total) n bytes)
            (total + n)
  unfolding read_loop
  read_loop-next fuel w buffer total n bytes l e p s =
      let below : ltb total size ≡ true = ground (arith, l) in
      let some_bytes : (n == 0) ≡ false = ground (arith, p) in
      let sum : u64 (total + n) ≡ total + n = omega (arith, s) in
      rw (below, e, some_bytes, sum) refl

  read_loop-more :
      (fuel : ℕ) (w : World) (buffer : Bytes) (total left n : ℕ) (bytes : ℕ → ℕ)
      → total + left ≡ size
      → 0 < left
      → (read w left).1 ≡ bytes_read n bytes
      → 0 < n
      → total + n < 2 ^ 64
      → read_loop read (suc fuel) size w buffer total
        ≡ read_loop read fuel size (read w left).0 (store buffer (4 * total) n bytes) (total + n)
  read_loop-more fuel w buffer total left n bytes a l e p s =
      let remaining : size - total ≡ left = omega (arith, a) in
      subst
        (λ k.
          (read w k).1 ≡ bytes_read n bytes
          → read_loop read (suc fuel) size w buffer total
            ≡ read_loop read fuel size (read w k).0 (store buffer (4 * total) n bytes) (total + n))
        remaining (λ e'. read_loop-next fuel w buffer total n bytes (omega (arith, a, l)) e' p s) e

  read_loop-full :
      (fuel : ℕ) (w : World) (buffer : Bytes)
      → read_loop read (suc fuel) size w buffer size ≡ ok (w, buffer, 0)
  unfolding read_loop
  read_loop-full fuel w buffer =
      let end : ltb size size ≡ false = ground arith in
      let full : (size == size) ≡ true = ground arith in rw (end, full) refl

  module _ (d : Documented read) (small : size < 2 ^ 64) where
    -- It returns 0 where as many bytes as the buffer has were read, and 1 otherwise.
    abbrev pub Ended : World → ℕ → World × Bytes × ℕ → Type 0
    Ended w left (w', buffer, ret) = ((ret ≡ 0) × (d.position w' ≡ d.position w + left)) ⊎ (ret ≡ 1)

    moved-Ended :
        (w v : World) (left total : ℕ) (r : World × Bytes × ℕ)
        → d.position v + left ≡ d.position w + total
        → Ended v left r
        → Ended w total r
    moved-Ended w v left total r e (inl done) = inl (done.0, omega (arith, done.1, e))
    moved-Ended w v left total r e (inr bad) = inr bad

    read_loop-Ended :
        (fuel : ℕ) (w : World) (buffer : Bytes) (total : ℕ)
        → total ≤ size
        → d.signals w + (size - total) < fuel
        → Returns (Ended w (size - total)) (read_loop read fuel size w buffer total)
    unfolding read_loop
    read_loop-Ended zero w buffer total l f = absurd (omega arith)
    read_loop-Ended (suc fuel) w buffer total l f = elim (Bool-cases (ltb total size)) [
      | inr end ↦ elim (ℕ_discrete total size) [
        | yes full ↦
            let whole : (total == size) ≡ true = ground (arith, full) in
            rw (end, whole) (inl (refl, omega (arith, full)))
        | no more ↦ absurd (ground (arith, end, more, l))
      ]
      | inl below ↦
          let b : total < size = ground (arith, below) in
          let w' = (read w (size - total)).0 in
          elim (result-cases (read w (size - total)).1) [
            | inl again ↦
                let (same, fewer) = d.interrupts w (size - total) again in
                let rest = read_loop-Ended fuel w' buffer total l (omega (arith, fewer, f)) in
                rw (below, again)
                  (Returns-map (Ended w' (size - total)) (Ended w (size - total))
                    (read_loop read fuel size w' buffer total) rest
                    λ r e. moved-Ended w w' (size - total) (size - total) r (omega (arith, same)) e)
            | inr (inl bad) ↦ rw (below, bad) (inr refl)
            | inr (inr (n, bytes, good)) ↦
                let (next, signals_le) = d.advances w (size - total) n bytes good in
                let c = d.count_le w (size - total) n bytes good in
                elim (Bool-cases (n == 0)) [
                  | inl end ↦
                      let short : (total == size) ≡ false = ground (arith, b) in
                      rw (below, good, end, short) (inr refl)
                  | inr some_bytes ↦
                      let pos : 0 < n = ground (arith, some_bytes) in
                      let buffer' = store buffer (4 * total) n bytes in
                      let rest =
                        read_loop-Ended fuel w' buffer' (total + n) (omega (arith, c, b))
                          (omega (arith, signals_le, f, pos, c, b)) in
                      let left : n + (size - (total + n)) ≡ size - total = omega (arith, c, b) in
                      let all : total + (size - total) ≡ size = omega (arith, b) in
                      rw
                        (read_loop-more fuel w buffer total (size - total) n bytes all
                          (omega (arith, b)) good pos (omega (arith, c, b, small)))
                        (Returns-map (Ended w' (size - (total + n))) (Ended w (size - total))
                          (read_loop read fuel size w' buffer' (total + n)) rest
                          λ r e.
                            moved-Ended w w' (size - (total + n)) (size - total) r
                              (omega (arith, next, left)) e)
                ]
          ]
    ]

    -- If `read` behaves as it is documented, and is interrupted no more often than a bound says,
    -- then read_workload of fewer than 2^64 bytes returns once its loop may run as often as that
    -- bound and the number of bytes together allow; it returns 0 after exactly as many bytes as
    -- were asked for, or 1.
    pub read_workload-Ended :
        (fuel : ℕ) (w : World) (buffer : Bytes)
        → d.signals w + size < fuel
        → Returns (Ended w size) (read_workload read fuel w buffer size)
    unfolding read_workload
    read_workload-Ended fuel w buffer f =
        let whole : size - 0 ≡ size = omega arith in
        subst (λ k. Returns (Ended w k) (read_loop read fuel size w buffer 0)) whole
          (read_loop-Ended fuel w buffer 0 (omega arith) (omega (arith, f)))

  -- A first read that stops early, after which the second gives the rest.
  module _ (n : ℕ) (w : World) (buffer : Bytes) (first second : ℕ → ℕ) (pos : 0 < n)
      (short : n < size) (small : size < 2 ^ 64)
      (reads_first : (read w size).1 ≡ bytes_read n first)
      (reads_second : (read (read w size).0 (size - n)).1 ≡ bytes_read (size - n) second) where
    abbrev second_world : World
    second_world = (read (read w size).0 (size - n)).0

    abbrev overrun : Bytes
    overrun = store (store buffer 0 n first) (4 * n) (size - n) second

    two_reads : read_workload read 3 w buffer size ≡ ok (second_world, overrun, 0)
    unfolding read_workload
    two_reads =
        let all : n + (size - n) ≡ size = omega (arith, short) in
        let once =
          read_loop-more 2 w buffer 0 size n first (omega arith) (omega (arith, short)) reads_first
            pos (omega (arith, short, small)) in
        let twice =
          read_loop-more 1 (read w size).0 (store buffer 0 n first) n (size - n) (size - n) second
            all (omega (arith, short)) reads_second (omega (arith, short))
            (omega (arith, short, small)) in
        let third : read_loop read 1 size second_world overrun (n + (size - n))
            ≡ ok (second_world, overrun, 0) =
          subst (λ k. read_loop read 1 size second_world overrun k ≡ ok (second_world, overrun, 0))
            (sym all) (read_loop-full 0 second_world overrun) in
        let sum : 0 + n ≡ n = omega arith in
        once
        ∙ ap (λ k. read_loop read 2 size (read w size).0 (store buffer 0 n first) k) sum
        ∙ twice
        ∙ third

    -- If the first `read` of a workload of fewer than 2^64 bytes gives n bytes, more than none and
    -- fewer than asked for, and the second gives all the others, then read_workload returns 0, but
    -- these others begin at byte 4 * n of the buffer and not at byte n, and the bytes from n to 4
    -- * n are what they were before.
    pub read_workload-overrun :
        Returns
          (λ r.
            (r.2 ≡ 0)
            × ((i : ℕ) → i < size - n → r.1 (4 * n + i) ≡ second i)
            × ((a : ℕ) → n ≤ a → a < 4 * n → r.1 a ≡ buffer a))
          (read_workload read 3 w buffer size)
    read_workload-overrun =
        rw two_reads (refl, (λ i l. ground (arith, l)), λ a l h. ground (arith, l, h))
