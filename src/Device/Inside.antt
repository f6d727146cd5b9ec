-- ===== src/Device/Inside.antt =====
-- The chunks of a block device.
use native.Mathlib.Nat.{div-mul-le_self}
use znworkload.Prelude.{ℕ, ◌+◌, ◌*◌, ◌/◌, ◌<◌, ◌≤◌, ◌≡◌, true, false, ◌==◌, ◌^◌, arith, ltb, u32}
use znworkload.Run.{Returns}
use znworkload.Backend.{chunk_pointer}
use znworkload.Location.{Geometry, chunk_pointer-bounds, zone_inside}
use znworkload.Device.{Opened, opened, failed, open_block, signed_quotient}

-- Every chunk of the zones ends within the device.
abbrev pub Inside : ℕ → ℕ → Opened → Type 0
Inside size chunk_sz (failed ret) = ⊥
Inside size chunk_sz (opened info capacity) =
    (c z : ℕ)
    → c < capacity / chunk_sz
    → z < info.nr_zones
    → chunk_pointer info.zone_size chunk_sz c z + chunk_sz ≤ size

-- If a block device of fewer than 2^63 bytes has room for one zone of the positive capacity that
-- the build sets, and for fewer than 2^32 of them, and a chunk is not empty, then `main` goes on
-- with a geometry in which every chunk of every zone ends within the device.
pub open_block-Inside :
    (capacity size chunk_sz : ℕ)
    → 0 < chunk_sz
    → 0 < capacity
    → capacity ≤ size
    → size < 2 ^ 63
    → size / capacity < 2 ^ 32
    → Returns (Inside size chunk_sz) (open_block capacity size)
unfolding open_block signed_quotient
open_block-Inside capacity size chunk_sz pos some_bytes fits small few =
    let big : ltb size capacity ≡ false = ground (arith, fits) in
    let positive : (capacity == 0) ≡ false = ground (arith, some_bytes) in
    let signed : ltb size (2 ^ 63) ≡ true = ground (arith, small) in
    let whole : u32 (size / capacity) ≡ size / capacity = omega (arith, few) in
    let covered : (size / capacity) * capacity ≤ size = div-mul-le_self size capacity in
    let n = size / capacity in
    let g : Geometry n capacity capacity chunk_sz = record {
      chunk_pos = pos;
      cap_fits = omega arith;
      addressed = omega (arith, covered, small);
    } in
    rw (big, positive, signed, whole)
      (λ c z hc hz.
        let (_, _, b) = chunk_pointer-bounds n capacity capacity chunk_sz g c z hc hz in
        let i = zone_inside n capacity capacity chunk_sz g z hz in omega (arith, b, i, covered))
