-- ===== src/Disk/Validate.antt =====
-- zn_validate_read against what zn_gen_write_buffer and zn_write_out have put on the device.
use znworkload.Prelude.{
  ℕ, zero, suc, ◌+◌, ◌^◌, ◌≤◌, ◌<◌, ◌≡◌, ◌≢◌, ◌∙◌, ◌↔◌, inl, inr, sym, some, none, arith, ◌==◌, u32,
  Bool-cases, Option-cases, dec_lt, ap,
}
use znworkload.Run.{ok, Returns-value}
use znworkload.Backend.{Pair, chunk_pointer}
use znworkload.Disk.{
  Posix, read_u32, byte_of, gen_write_buffer, validate_loop, validate_read, read_from_disk,
  write_chunk,
}
use znworkload.Disk.Writes.{Documented, Progress, Wrote, write_out-Wrote, Filled}

-- The chunk starts with the ID, and agrees with the other buffer after it.
abbrev pub Matches : ℕ → (ℕ → ℕ) → ℕ → (ℕ → ℕ) → Type 0
Matches chunk_sz chunk id compare_buffer =
    (read_u32 chunk ≡ id) × ((i : ℕ) → 4 ≤ i → i < chunk_sz → chunk i ≡ compare_buffer i)

module _ (chunk_sz : ℕ) (chunk compare_buffer : ℕ → ℕ) (reached : chunk_sz < 2 ^ 32) where
  -- The loop ends with 0 if the bytes agree from the index on, and with -1 if they do not.
  validate_loop-agrees :
      (fuel i : ℕ)
      → 0 < fuel
      → chunk_sz < fuel + i
      → ((j : ℕ) → i ≤ j → j < chunk_sz → chunk j ≡ compare_buffer j)
      → validate_loop fuel i chunk_sz chunk compare_buffer ≡ ok 0
  unfolding validate_loop
  validate_loop-agrees zero i some_fuel enough h = absurd (omega arith)
  validate_loop-agrees (suc fuel) i some_fuel enough h = elim (dec_lt i chunk_sz) [
    | no past ↦ ground (arith, past)
    | yes more ↦
        let next : u32 (i + 1) ≡ i + 1 = omega (arith, more, reached) in
        let here : chunk i ≡ compare_buffer i = h i (omega arith) more in
        let rest =
          validate_loop-agrees fuel (i + 1) (omega (arith, enough, more)) (omega (arith, enough))
            (λ j a b. h j (omega arith) b) in
        rw next (ground (arith, more, here, rest))
  ]

  validate_loop-zero :
      (fuel i : ℕ)
      → validate_loop fuel i chunk_sz chunk compare_buffer ≡ ok 0
      → (j : ℕ) → i ≤ j
      → j < chunk_sz
      → chunk j ≡ compare_buffer j
  unfolding validate_loop
  validate_loop-zero zero i e j a b = absurd (ground arith)
  validate_loop-zero (suc fuel) i e j a b =
      let more : i < chunk_sz = omega (arith, a, b) in
      let next : u32 (i + 1) ≡ i + 1 = omega (arith, more, reached) in
      elim (Bool-cases (chunk i == compare_buffer i)) [
        | inl same ↦
            let rest : validate_loop fuel (i + 1) chunk_sz chunk compare_buffer ≡ ok 0 =
              ground (arith, e, more, same, next) in
            elim (dec_lt i j) [
              | yes later ↦ validate_loop-zero fuel (i + 1) rest j (omega arith) b
              | no now ↦
                  let s : chunk i ≡ compare_buffer i = ground (arith, same) in
                  let f : i ≡ j = omega arith in rw f at s
            ]
        | inr other ↦ absurd (ground (arith, e, more, other))
      ]

-- An index of 32 bits does not reach the end of a chunk of 2^32 bytes.
validate_loop-unreached :
    (chunk_sz : ℕ) (chunk compare_buffer : ℕ → ℕ)
    → 2 ^ 32 ≤ chunk_sz
    → (fuel i : ℕ) → i < 2 ^ 32
    → validate_loop fuel i chunk_sz chunk compare_buffer ≢ ok 0
unfolding validate_loop
validate_loop-unreached chunk_sz chunk compare_buffer big zero i h e = ground arith
validate_loop-unreached chunk_sz chunk compare_buffer big (suc fuel) i h e =
    let more : i < chunk_sz = omega (arith, big, h) in
    elim (Bool-cases (chunk i == compare_buffer i)) [
      | inl same ↦
          validate_loop-unreached chunk_sz chunk compare_buffer big fuel (u32 (i + 1)) (omega arith)
            (ground (arith, e, more, same))
      | inr other ↦ absurd (ground (arith, e, more, other))
    ]

-- zn_validate_read returns 0 if and only if the chunk size is below 2^32, the chunk starts with
-- the ID, and it agrees with the buffer from its fifth byte to its end.
pub validate_read-Matches :
    (chunk_sz : ℕ) (chunk : ℕ → ℕ) (id : ℕ) (compare_buffer : ℕ → ℕ)
    → (validate_read chunk_sz chunk id compare_buffer ≡ ok 0)
      ↔ ((chunk_sz < 2 ^ 32) × Matches chunk_sz chunk id compare_buffer)
unfolding validate_read
validate_read-Matches chunk_sz chunk id compare_buffer = (there, back)
  where
    there :
        validate_read chunk_sz chunk id compare_buffer ≡ ok 0
        → (chunk_sz < 2 ^ 32) × Matches chunk_sz chunk id compare_buffer
    there e = elim (Bool-cases (read_u32 chunk == id)) [
      | inl same ↦
          let rest : validate_loop (chunk_sz + 1) 4 chunk_sz chunk compare_buffer ≡ ok 0 =
            rw same at e in
          elim (dec_lt chunk_sz (2 ^ 32)) [
            | no big ↦ absurd (
                validate_loop-unreached chunk_sz chunk compare_buffer (omega (arith, big))
                  (chunk_sz + 1) 4 (omega arith) rest)
            | yes reached ↦ (
              reached,
              (
                ground (arith, same),
                validate_loop-zero chunk_sz chunk compare_buffer reached (chunk_sz + 1) 4 rest,
              ),
            )
          ]
      | inr other ↦ absurd (ground (arith, e, other))
    ]

    back :
        (chunk_sz < 2 ^ 32) × Matches chunk_sz chunk id compare_buffer
        → validate_read chunk_sz chunk id compare_buffer ≡ ok 0
    back m =
        let reached = m.0 in
        let id_eq : read_u32 chunk ≡ id = m.1.0 in
        let rest =
          validate_loop-agrees chunk_sz chunk compare_buffer reached (chunk_sz + 1) 4 (omega arith)
            (omega arith) m.1.1 in
        ground (arith, id_eq, rest)

read_u32-byte_of :
    (id : ℕ) (chunk : ℕ → ℕ)
    → id < 2 ^ 32
    → ((i : ℕ) → i < 4 → chunk i ≡ byte_of id i)
    → read_u32 chunk ≡ id
unfolding read_u32
read_u32-byte_of id chunk b h =
    let e0 = h 0 (omega arith) in
    let e1 = h 1 (omega arith) in
    let e2 = h 2 (omega arith) in let e3 = h 3 (omega arith) in omega arith

module _ {World : Type 0} (posix : Posix World) (d : Documented posix) (p : Progress posix)
    (zone_size chunk_sz id : ℕ) (random_buffer : ℕ → ℕ) (at : Pair) (w w' : World) where
  write_chunk-Filled :
      chunk_pointer zone_size chunk_sz at.chunk_offset at.zone + chunk_sz + 4096 < 2 ^ 64
      → write_chunk posix zone_size chunk_sz id random_buffer at w ≡ ok (w', 0)
      → Filled posix
          (gen_write_buffer id random_buffer)
          chunk_sz
          4096
          (chunk_pointer zone_size chunk_sz at.chunk_offset at.zone)
          w'
          chunk_sz
  unfolding write_chunk
  write_chunk-Filled fits wrote =
      let buffer = gen_write_buffer id random_buffer in
      let wp = chunk_pointer zone_size chunk_sz at.chunk_offset at.zone in
      elim (Returns-value (Wrote posix buffer chunk_sz 4096 wp w) wrote
        (write_out-Wrote posix buffer chunk_sz 4096 wp d p fits (omega arith) w)) [
          | inl all ↦ all.1
          | inr none_of_it ↦ absurd (omega (arith, none_of_it.0))
        ]

  read_from_disk-bytes :
      (chunk : ℕ → ℕ)
      → read_from_disk posix zone_size chunk_sz at w' ≡ some chunk
      → (i : ℕ) → i < chunk_sz
      → chunk i ≡ posix.bytes w' (chunk_pointer zone_size chunk_sz at.chunk_offset at.zone + i)
  unfolding read_from_disk
  read_from_disk-bytes chunk found i h =
      let wp = chunk_pointer zone_size chunk_sz at.chunk_offset at.zone in
      let c = posix.pread w' chunk_sz wp in
      elim (Option-cases c.0) [
        | inl e ↦ absurd (let f : none ≡ some chunk = rw (e, read_from_disk) at found in cc)
        | inr (n, e) ↦ elim (Bool-cases (n == chunk_sz)) [
          | inl whole ↦
              let f : some c.1 ≡ some chunk = rw (e, whole, read_from_disk) at found in
              let g : c.1 ≡ chunk = cc in
              let s : c ≡ (some n, c.1) = ap (λ o. (o, c.1)) e in
              let b : n ≡ chunk_sz = ground (arith, whole) in
              ap (λ k. k i) (sym g) ∙ d.read w' chunk_sz wp n i c.1 s (omega arith)
          | inr short ↦
              absurd (let f : none ≡ some chunk = rw (e, short, read_from_disk) at found in cc)
        ]
      ]

  -- On documented system calls whose successful pwrite makes progress, for an ID of 32 bits, a
  -- chunk of at least 4 and fewer than 2^32 bytes and a location that lies low enough in 64 bits:
  -- if the write of the ID's buffer to a location returns 0 and the read of that location gives a
  -- chunk, then zn_validate_read accepts the chunk for the ID.
  pub write-read-validate :
      (chunk : ℕ → ℕ)
      → id < 2 ^ 32
      → 4 ≤ chunk_sz
      → chunk_sz < 2 ^ 32
      → chunk_pointer zone_size chunk_sz at.chunk_offset at.zone + chunk_sz + 4096 < 2 ^ 64
      → write_chunk posix zone_size chunk_sz id random_buffer at w ≡ ok (w', 0)
      → read_from_disk posix zone_size chunk_sz at w' ≡ some chunk
      → validate_read chunk_sz chunk id random_buffer ≡ ok 0
  unfolding gen_write_buffer
  write-read-validate chunk hi hc reached fits wrote found =
      let filled = write_chunk-Filled fits wrote in
      let same : (i : ℕ) → i < chunk_sz → chunk i ≡ gen_write_buffer id random_buffer i =
        λ i h. read_from_disk-bytes chunk found i h ∙ filled i h in
      (validate_read-Matches chunk_sz chunk id random_buffer).1 (
        reached,
        (
          read_u32-byte_of id chunk hi
              (λ i h. let e = same i (omega arith) in ground (arith, e, h)),
          λ i a b. let e = same i b in ground (arith, e, a),
        ),
      )
