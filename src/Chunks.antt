-- ===== src/Chunks.antt =====
-- What the chunks of the device hold, for the threads of src/cache.c: the effect of zn_write_out and
-- of reset_zone on whole chunks. znworkload.Disk has the bytes, and Disk/Confined the writes that
-- stay in their chunk.
use znworkload.Prelude.{
  ℕ, ◌*◌, ◌%◌, ◌^◌, ltb, leb, Bool, true, false, ◌&&◌, Option, none, ◌==◌, if◌then◌else◌,
}
use znworkload.Backend.{Pair, Backend, zns, block}

-- The device. `written` is the ID whose buffer was last written to a chunk, if that write succeeded
-- and the chunk was not reset since. The chunk holds that buffer as long as it is `intact`: once a
-- write has gone past the end of its chunk, nothing is known of what any chunk holds.
pub record Contents : Type 0 where
  pub written : ℕ → ℕ → Option ℕ
  pub intact : Bool

-- How a read or a write of a chunk ended: whether it succeeded, and, for a write, whether each of
-- its calls of pwrite that succeeded wrote all the bytes that it was given.
pub record Io : Type 0 where
  pub success : Bool
  pub whole : Bool

-- The sizes in struct zn_cache that say where the chunks of the device lie.
pub record Layout : Type 0 where
  pub chunk_sz : ℕ
  pub zone_cap : ℕ
  pub zone_size : ℕ
  pub nr_zones : ℕ

-- CHUNK_POINTER keeps the chunks apart if the zones hold their capacity and 64 bits address them
-- all. zn_write_out gives every pwrite WRITE_GRANULARITY = 4096 bytes, also the last one: they end
-- with the chunk if its size is a multiple of 4096 and no pwrite is short.
abbrev pub lays_apart : Layout → Bool
lays_apart l =
    l.chunk_sz % 4096 == 0 && leb l.zone_cap l.zone_size && ltb (l.nr_zones * l.zone_size) (2 ^ 64)

abbrev pub confined : Layout → Io → Bool
confined l io = lays_apart l && io.whole

-- The device after a write to a location, which may go past the end of the chunk
abbrev pub put_chunk_content : Contents → Bool → Pair → Option ℕ → Contents
put_chunk_content f inside p d = record {
  written = λ z c. if z == p.zone && c == p.chunk_offset then d else f.written z c;
  intact = f.intact && inside;
}

-- reset_zone touches no data on a block device.
abbrev pub resets_data : Backend → Bool
resets_data zns = true
resets_data block = false

-- The device after a reset of a zone
abbrev pub reset_content : Contents → Backend → ℕ → Contents
reset_content f backend zone = record f {
  written = λ z c. if resets_data backend && z == zone then none else f.written z c;
}

-- What a read of a location gives: the chunk of an ID, or nothing that is known.
abbrev pub content_at : Contents → Pair → Option ℕ
content_at f p = if f.intact then f.written p.zone p.chunk_offset else none
