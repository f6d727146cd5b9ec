-- ===== src/WorkloadFile.antt =====
-- read_workload of src/zncache.c: `read` into a buffer of uint32_t until it is full. The system call
-- is an argument; `Bytes` is the memory from the buffer's start on, by byte. Messages are left out.
pub mod Loaded
mod Tests
use znworkload.Prelude.{ℕ, zero, suc, ◌+◌, ◌-◌, ◌*◌, ◌&&◌, ltb, leb, ◌==◌, if◌then◌else◌, u64}
use znworkload.Run.{Run, ok, crash}

-- How a call of `read` ends: EINTR, another error, or a number of bytes with what they are.
pub data ReadResult : Type 0 where
  interrupted failed : ReadResult
  bytes_read : ℕ → (ℕ → ℕ) → ReadResult

abbrev pub Bytes : Type 0
Bytes = ℕ → ℕ

abbrev pub store : Bytes → ℕ → ℕ → (ℕ → ℕ) → Bytes
store memory off n bytes a = if leb off a && ltb a (off + n) then bytes (a - off) else memory a

module _ {World : Type 0} (read : World → ℕ → World × ReadResult) where
  -- The code that is returned after the loop.
  abbrev pub full_or_error : ℕ → ℕ → ℕ
  full_or_error size total = if total == size then 0 else 1

  -- The loop; the address `buffer + total_bytes_read` counts uint32_t, so it is at four times the
  -- number of bytes. It runs out of fuel only if it is interrupted too often.
  unfoldable pub read_loop : ℕ → ℕ → World → Bytes → ℕ → Run (World × Bytes × ℕ)
  read_loop zero size w buffer total = crash
  read_loop (suc fuel) size w buffer total =
      let (w', r) = read w (size - total) in
      if ltb total size
      then (elim r [
        | interrupted ↦ read_loop fuel size w' buffer total
        | failed ↦ ok (w', buffer, 1)
        | bytes_read n bytes ↦
            let rest =
              read_loop fuel size w' (store buffer (4 * total) n bytes) (u64 (total + n)) in
            if n == 0 then ok (w', buffer, full_or_error size total) else rest
      ])
      else ok (w, buffer, full_or_error size total)

  -- read_workload
  unfoldable pub read_workload : ℕ → World → Bytes → ℕ → Run (World × Bytes × ℕ)
  unfolding read_loop
  read_workload fuel w buffer size = read_loop fuel size w buffer 0
