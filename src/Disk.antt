-- ===== src/Disk.antt =====
-- The part of src/cache.c that moves a chunk: zn_write_out, zn_gen_write_buffer, zn_read_from_disk
-- and zn_validate_read. The system calls are parameters; a buffer is a function from its indices
-- to bytes, without its end. memcpy of the ID is on a little-endian machine.
pub mod Writes
pub mod Validate
pub mod Confined
mod Tests
use znworkload.Prelude.{
  ℕ, zero, suc, ◌+◌, ◌-◌, ◌*◌, ◌/◌, ◌%◌, ◌^◌, Bool, Option, none, some, ltb, ◌==◌, if◌then◌else◌,
  u32, u64, minus_one,
}
use znworkload.Run.{Run, ok, crash}
use znworkload.Backend.{Pair, chunk_pointer}

-- The system calls on a state of the machine: what lies on the device, and `errno`. pwrite takes a
-- buffer, a count and an offset; `none` is the result -1. pread gives its buffer too.
pub record Posix (World : Type 0) : Type 0 where
  pub pwrite : World → (ℕ → ℕ) → ℕ → ℕ → World × Option ℕ
  pub fsync : World → World
  pub reset_errno : World → World
  pub errno : World → ℕ
  pub pread : World → ℕ → ℕ → Option ℕ × (ℕ → ℕ)
  pub bytes : World → ℕ → ℕ

module _ {World : Type 0} (posix : Posix World) where
  -- The loop of zn_write_out, with the bytes written so far; it runs out of fuel only if pwrite
  -- writes no byte.
  unfoldable pub write_loop : ℕ → (ℕ → ℕ) → ℕ → ℕ → ℕ → World → ℕ → Run (World × ℕ)
  write_loop zero buffer to_write write_size wp w total = crash
  write_loop (suc fuel) buffer to_write write_size wp w total =
      let (w', wrote) = posix.pwrite w (λ i. buffer (total + i)) write_size (u64 (wp + total)) in
      let synced = posix.fsync w' in
      if ltb total to_write
      then (elim wrote [
        | none ↦ ok (synced, minus_one)
        | some n ↦
            let rest = write_loop fuel buffer to_write write_size wp synced (u64 (total + n)) in
            if posix.errno synced == 0 then rest else ok (synced, minus_one)
      ])
      else ok (w, 0)

  -- zn_write_out
  unfoldable pub write_out : (ℕ → ℕ) → ℕ → ℕ → ℕ → World → Run (World × ℕ)
  unfolding write_loop
  write_out buffer to_write write_size wp w =
      write_loop (to_write + 1) buffer to_write write_size wp (posix.reset_errno w) 0

  -- zn_read_from_disk, with `none` for NULL
  unfoldable pub read_from_disk : ℕ → ℕ → Pair → World → Option (ℕ → ℕ)
  read_from_disk zone_size chunk_sz p w =
      let (b, chunk) =
        posix.pread w chunk_sz (chunk_pointer zone_size chunk_sz p.chunk_offset p.zone) in
      elim b [ none ↦ none | some n ↦ if n == chunk_sz then some chunk else none ]

-- The bytes of a uint32_t in memory, and the uint32_t of four bytes.
abbrev pub byte_of : ℕ → ℕ → ℕ
byte_of n i = (n / 256 ^ i) % 256

unfoldable pub read_u32 : (ℕ → ℕ) → ℕ
read_u32 chunk = chunk 0 + 256 * chunk 1 + 65536 * chunk 2 + 16777216 * chunk 3

-- zn_gen_write_buffer
unfoldable pub gen_write_buffer : ℕ → (ℕ → ℕ) → ℕ → ℕ
gen_write_buffer zone_id buffer i = if ltb i 4 then byte_of zone_id i else buffer i

-- The loop of zn_validate_read, whose index is a uint32_t; it runs out of fuel if the index wraps.
unfoldable pub validate_loop : ℕ → ℕ → ℕ → (ℕ → ℕ) → (ℕ → ℕ) → Run ℕ
validate_loop zero i chunk_sz chunk compare_buffer = crash
validate_loop (suc fuel) i chunk_sz chunk compare_buffer =
    let rest = validate_loop fuel (u32 (i + 1)) chunk_sz chunk compare_buffer in
    if ltb i chunk_sz then (if chunk i == compare_buffer i then rest else ok minus_one) else ok 0

-- zn_validate_read. For a chunk size from 2^32 on, whose bytes agree as far as the index reaches,
-- the loop never ends, which is a crash here.
unfoldable pub validate_read : ℕ → (ℕ → ℕ) → ℕ → (ℕ → ℕ) → Run ℕ
unfolding validate_loop
validate_read chunk_sz chunk id compare_buffer =
    if read_u32 chunk == id
    then validate_loop (chunk_sz + 1) 4 chunk_sz chunk compare_buffer
    else ok minus_one

module _ {World : Type 0} (posix : Posix World) where
  -- The write of zn_cache_get: the buffer for an ID goes to its location, 4096 bytes at a time.
  unfoldable pub write_chunk : ℕ → ℕ → ℕ → (ℕ → ℕ) → Pair → World → Run (World × ℕ)
  write_chunk zone_size chunk_sz id random_buffer p w =
      let chunk = gen_write_buffer id random_buffer in
      let wp = chunk_pointer zone_size chunk_sz p.chunk_offset p.zone in
      write_out posix chunk chunk_sz 4096 wp w
