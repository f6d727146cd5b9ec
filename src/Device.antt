-- ===== src/Device.antt =====
-- How `main` of src/zncache.c opens the device, with zone_cap and generate_random_buffer of
-- src/znutil.c. The build options BLOCK_ZONE_CAPACITY and MAX_ZONES_USED are arguments, and so is
-- what libzbd, `ioctl`, `malloc` and `rand` answer. A device whose open fails is left out.
pub mod Inside
mod Tests
use znworkload.Prelude.{
  ℕ, ◌/◌, ◌%◌, ◌-◌, ◌^◌, Bool, true, false, Option, some, none, ltb, ◌==◌, if◌then◌else◌, u32, u64,
  minus_one,
}
use znworkload.Run.{Run, ok, abort, crash, ◌>>=◌}
use znworkload.Startup.{DeviceInfo}

-- What `main` goes on with, or the code that it returns.
pub data Opened : Type 0 where
  opened : DeviceInfo → ℕ → Opened
  failed : ℕ → Opened

-- zone_cap: the code of zbd_report_zones, and the capacity where that is 0
unfoldable pub zone_cap : ℕ × ℕ → ℕ × Option ℕ
zone_cap (ret, capacity) = if ret == 0 then (ret, some capacity) else (ret, none)

-- `(long) size / capacity` in 64 bits, for a positive long as the capacity: from 2^63 on the long is
-- negative, and its quotient is truncated towards 0.
unfoldable pub signed_quotient : ℕ → ℕ → ℕ
signed_quotient size capacity =
    if ltb size (2 ^ 63) then size / capacity else u64 (2 ^ 64 - (2 ^ 64 - size) / capacity)

-- The branches for a block device of `size` bytes; a capacity of 0 divides by zero.
unfoldable pub open_block : ℕ → ℕ → Run Opened
unfolding signed_quotient
open_block capacity size =
    if ltb size capacity
    then abort
    else (if capacity == 0
        then crash
        else ok (
            opened
              (record {
                nr_zones = u32 (signed_quotient size capacity);
                max_nr_active_zones = 0;
                zone_size = capacity;
              })
              capacity))

abbrev pub with_capacity : DeviceInfo → ℕ × Option ℕ → Opened
with_capacity info (ret, some capacity) = opened info capacity
with_capacity info (ret, none) = failed ret

-- The branches for a zoned device: what zbd_open says of it, then zbd_reset_zones and the report.
unfoldable pub open_zoned : ℕ → DeviceInfo → ℕ → ℕ × ℕ → Opened
unfolding zone_cap
open_zoned max_zones_used info reset_ret report =
    let used = if max_zones_used == 0 then info else record info { nr_zones = max_zones_used } in
    if reset_ret == 0 then with_capacity used (zone_cap report) else failed minus_one

-- generate_random_buffer, with what `rand` gives in turn; `none` for NULL
unfoldable pub generate_random_buffer : (ℕ → ℕ) → Bool → ℕ → Option (ℕ → ℕ)
generate_random_buffer rand allocated size =
    if size == 0 then none else (if allocated then some (λ i. rand i % 256) else none)
