-- ===== src/Tests.antt =====
-- The theorems of Location at concrete devices.
use znworkload.Prelude.{◌+◌, ◌*◌, ◌≤◌, ◌≡◌, ◌⊎◌, inr, arith}
use znworkload.Backend.{chunk_pointer}
use znworkload.Location.{Geometry, chunk_pointer-bounds, chunk_pointer-disjoint}

small : Geometry 3 16384 8192 4096
small = record { chunk_pos = omega arith; cap_fits = omega arith; addressed = omega arith }

pointer_bounds :
    (chunk_pointer 16384 4096 1 2 ≡ 16384 * 2 + 1 * 4096)
    × (16384 * 2 ≤ chunk_pointer 16384 4096 1 2)
    × (chunk_pointer 16384 4096 1 2 + 4096 ≤ 16384 * 2 + 8192)
pointer_bounds = chunk_pointer-bounds 3 16384 8192 4096 small 1 2 (omega arith) (omega arith)

chunks_apart :
    (chunk_pointer 16384 4096 0 2 + 4096 ≤ chunk_pointer 16384 4096 1 2)
    ⊎ (chunk_pointer 16384 4096 1 2 + 4096 ≤ chunk_pointer 16384 4096 0 2)
chunks_apart =
    chunk_pointer-disjoint 3 16384 8192 4096 small 0 2 1 2 (omega arith) (omega arith) (omega arith)
      (omega arith) (inr (omega arith))
