-- ===== src/WorkloadFile/Tests.antt =====
-- Runs of read_workload on a file whose bytes are their own places, from which at most six bytes are
-- read at a time.
use znworkload.Prelude.{ℕ, ◌+◌, ◌-◌, ◌*◌, ◌<◌, ◌≤◌, ◌≡◌, refl, ap, sym, arith, leb, if◌then◌else◌}
use znworkload.Run.{Returns}
use znworkload.WorkloadFile.{ReadResult, bytes_read, read_workload}
use znworkload.WorkloadFile.Loaded.{Documented, Ended, read_workload-Ended, read_workload-overrun}

abbrev at_most : ℕ → ℕ
at_most n = if leb n 6 then n else 6

abbrev read : ℕ → ℕ → ℕ × ReadResult
read w n = (w + at_most n, bytes_read (at_most n) (λ i. w + i))

-- The number of bytes that a result says.
abbrev counted : ReadResult → ℕ
counted (bytes_read n bytes) = n
counted _ = 0

abbrev byte : ℕ → ReadResult → ℕ
byte i (bytes_read n bytes) = bytes i
byte i _ = 0

abbrev read-Documented : Documented read
read-Documented = record {
  file = λ i. i;
  position = λ w. w;
  signals = λ w. 0;
  count_le = λ w n k bytes e. (let c : at_most n ≡ k = ap counted e in ground (arith, c));
  next_bytes = λ w n k i bytes e l. sym (ap (byte i) e);
  advances =
      λ w n k bytes e. (let c : at_most n ≡ k = ap counted e in (omega (arith, c), omega arith));
  interrupts = λ w n e. cc;
}

read_workload-Ended_example :
    Returns (Ended read 8 read-Documented (omega arith) 0 8) (read_workload read 9 0 (λ a. 99) 8)
read_workload-Ended_example =
    read_workload-Ended read 8 read-Documented (omega arith) 9 0 (λ a. 99) (omega arith)

read_workload-overrun_example :
    Returns
      (λ r.
        (r.2 ≡ 0)
        × ((i : ℕ) → i < 8 - 6 → r.1 (4 * 6 + i) ≡ 6 + i)
        × ((a : ℕ) → 6 ≤ a → a < 4 * 6 → r.1 a ≡ 99))
      (read_workload read 3 0 (λ a. 99) 8)
read_workload-overrun_example =
    read_workload-overrun read 8 6 0 (λ a. 99) (λ i. 0 + i) (λ i. 6 + i) (omega arith) (omega arith)
      (omega arith) refl refl
