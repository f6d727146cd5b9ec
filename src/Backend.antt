-- ===== src/Backend.antt =====
-- include/znbackend.h, and CHUNK_POINTER of include/znutil.h.
use znworkload.Prelude.{ℕ, ◌+◌, ◌*◌, Bool, u64}

-- enum zn_backend
pub data Backend : Type 0 where
  zns block : Backend

-- struct zn_pair
pub record Pair : Type 0 where
  pub zone : ℕ
  pub chunk_offset : ℕ
  pub id : ℕ
  pub in_use : Bool

-- CHUNK_POINTER(z_sz, c_sz, c_num, z_num), in uint64_t
unfoldable pub chunk_pointer : ℕ → ℕ → ℕ → ℕ → ℕ
chunk_pointer z_sz c_sz c_num z_num = u64 (u64 (z_sz * z_num) + u64 (c_num * c_sz))
