-- ===== src/Disk/Tests.antt =====
-- A device that writes up to 4 bytes at a time, and the theorems on it.
use znworkload.Prelude.{
  ℕ, ◌+◌, ◌-◌, ◌<◌, ◌^◌, ◌≡◌, ◌↔◌, ◌&&◌, refl, some, arith, ltb, leb, if◌then◌else◌, false, ap, sym,
  ◌∙◌,
}
use znworkload.Run.{ok, Returns}
use znworkload.Backend.{Pair, chunk_pointer}
use znworkload.Disk.{
  Posix, write_chunk, write_out, write_loop, read_from_disk, validate_read, gen_write_buffer,
}
use znworkload.Disk.Writes.{Documented, Progress, Wrote, write_out-Wrote}
use znworkload.Disk.Validate.{validate_read-Matches, Matches, write-read-validate}

abbrev World : Type 0
World = ℕ → ℕ

-- How many bytes one call writes.
abbrev at_most : ℕ → ℕ
at_most n = if leb n 6 then n else 6

abbrev write_bytes : World → (ℕ → ℕ) → ℕ → ℕ → World
write_bytes w buffer n off a = if leb off a && ltb a (off + n) then buffer (a - off) else w a

abbrev disk : Posix World
disk = record {
  pwrite = λ w buffer n off. (write_bytes w buffer (at_most n) off, some (at_most n));
  fsync = λ w. w;
  reset_errno = λ w. w;
  errno = λ w. 0;
  pread = λ w n off. (some n, λ i. w (off + i));
  bytes = λ w a. w a;
}

written_count :
    (w w' : World) (buffer : ℕ → ℕ) (n off k : ℕ)
    → disk.pwrite w buffer n off ≡ (w', some k)
    → at_most n ≡ k
written_count w w' buffer n off k e = let f : some (at_most n) ≡ some k = ap (λ x. x.1) e in cc

written_bytes :
    (w w' : World) (buffer : ℕ → ℕ) (n off k a : ℕ)
    → disk.pwrite w buffer n off ≡ (w', some k)
    → w' a ≡ write_bytes w buffer k off a
written_bytes w w' buffer n off k a e =
    let c = written_count w w' buffer n off k e in
    let f : w' a ≡ write_bytes w buffer (at_most n) off a = sym (ap (λ x. x.0 a) e) in rw c at f

disk-Documented : Documented disk
disk-Documented = record {
  count_le =
      λ w w' buffer n off k e. let c = written_count w w' buffer n off k e in ground (arith, c);
  written = λ w w' buffer n off k i e h.
      let b = written_bytes w w' buffer n off k (off + i) e in
      let f : off + i - off ≡ i = omega arith in
      let g : write_bytes w buffer k off (off + i) ≡ buffer (off + i - off) = ground (arith, h) in
      b ∙ g ∙ ap buffer f;
  others = λ w w' buffer n off k a e h.
      let b = written_bytes w w' buffer n off k a e in
      let g : write_bytes w buffer k off a ≡ w a = ground (arith, h) in b ∙ g;
  fsync_bytes = λ w a. refl;
  errno_bytes = λ w a. refl;
  read = λ w n off k i chunk e h. let f : w (off + i) ≡ chunk i = ap (λ x. x.1 i) e in sym f;
}

disk-Progress : Progress disk
disk-Progress = record {
  progress =
      λ w w' buffer n off k h e. let c = written_count w w' buffer n off k e in ground (arith, c);
}

abbrev empty : World
empty a = 0

abbrev random : ℕ → ℕ
random i = i + 100

abbrev place : Pair
place = record { zone = 1; chunk_offset = 1; id = 0; in_use = false }

-- What the write of ID 7 leaves on the device, and what is read back.
abbrev after : World
after =
    write_bytes (write_bytes empty (λ i. gen_write_buffer 7 random (0 + i)) 6 24)
      (λ i. gen_write_buffer 7 random (6 + i)) 6 30

written_chunk : write_chunk disk 16 8 7 random place empty ≡ ok (after, 0)
unfolding write_chunk write_out write_loop chunk_pointer
written_chunk = refl

write_out-Wrote_example :
    Returns (Wrote disk random 8 4096 24 empty) (write_out disk random 8 4096 24 empty)
write_out-Wrote_example =
    write_out-Wrote disk random 8 4096 24 disk-Documented disk-Progress (omega arith) (omega arith)
      empty

write-read-validate_example : validate_read 8 (λ i. after (24 + i)) 7 random ≡ ok 0
unfolding read_from_disk chunk_pointer
write-read-validate_example =
    write-read-validate disk disk-Documented disk-Progress 16 8 7 random place empty after
      (λ i. after (24 + i)) (omega arith) (omega arith) (omega arith) (omega arith) written_chunk
      refl

validate_read-Matches_example :
    (validate_read 8 (gen_write_buffer 7 random) 7 random ≡ ok 0)
    ↔ ((8 < 2 ^ 32) × Matches 8 (gen_write_buffer 7 random) 7 random)
validate_read-Matches_example = validate_read-Matches 8 (gen_write_buffer 7 random) 7 random
