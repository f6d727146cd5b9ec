-- ===== src/Promotional/Tests.antt =====
-- Runs of the promotional policy over zones of two chunks, and its theorems there.
use znworkload.Prelude.{ℕ, ◌<◌, ◌≡◌, refl, false, [], ◌∷◌, arith, length, occ}
use znworkload.Run.{Run, ok, Returns}
use znworkload.Backend.{Pair}
use znworkload.Promotional.{
  Policy, read, write, promotional_init, promotional_update, promote, link_data, delete_link,
  get_zone_to_evict,
}
use znworkload.Promotional.Lru.{Inv, order}
use znworkload.Promotional.Refines.{
  Fits, Accessed, promotional_update-Accessed, Evicts, get_zone_to_evict-Evicts,
}
use znworkload.Promotional.Recency.{
  History, start, access, Stamps, stamp, ByAge, History-ByAge, evicts_oldest,
}

abbrev chunk : ℕ → ℕ → Pair
chunk z c = record { zone = z; chunk_offset = c; id = 0; in_use = false }

-- The policies after zone 5 and then zone 6 are filled, and after zone 5 is read.
abbrev value : Policy → Run Policy → Policy
value p (ok q) = q
value p _ = p

first : Policy
first = value (promotional_init 2) (promotional_update (promotional_init 2) (chunk 5 1) write)

second : Policy
unfolding first
second = value first (promotional_update first (chunk 6 1) write)

third : Policy
unfolding second
third = value second (promotional_update second (chunk 5 0) read)

abbrev clock : Stamps
clock = stamp (stamp (stamp (λ _. 0) 5 0) 6 1) 5 2

third-History : History 2 third clock 3
unfolding third promotional_init promotional_update promote link_data delete_link
third-History =
    access (chunk 5 0) read
      (access (chunk 6 1) write (access (chunk 5 1) write start (omega arith) (λ e. refl) refl)
        (omega arith) (λ e. refl) refl)
      (omega arith) (λ e. absurd (ground (arith, e))) refl

third-ByAge : Inv third × ByAge clock 3 (order third.lru_queue)
third-ByAge = History-ByAge third-History

third_order : order third.lru_queue ≡ 6 ∷ 5 ∷ []
unfolding third promotional_init promotional_update promote link_data delete_link
third_order = refl

third-Fits : Fits third (chunk 6 0)
unfolding third promotional_init promotional_update promote link_data delete_link
third-Fits = omega arith

promotional_update-Accessed_example :
    Returns (Accessed third (chunk 6 0) read) (promotional_update third (chunk 6 0) read)
promotional_update-Accessed_example =
    promotional_update-Accessed third (chunk 6 0) read third-ByAge.0 third-Fits
      (λ e. absurd (ground (arith, e)))

third_small : length third.lru_queue < 4294967296
unfolding third promotional_init promotional_update promote link_data delete_link
third_small = omega arith

oldest_evicted : Returns (Evicts third) (get_zone_to_evict third)
oldest_evicted = get_zone_to_evict-Evicts third third-ByAge.0 third_small

-- Zone 6 is evicted, and zone 5 stays.
abbrev left : Run (Policy × ℕ) → Policy
left (ok (q, r)) = q
left _ = promotional_init 2

fourth : Policy
unfolding third
fourth = left (get_zone_to_evict third)

evicted : get_zone_to_evict third ≡ ok (fourth, 6)
unfolding fourth get_zone_to_evict promotional_init promotional_update promote link_data delete_link
evicted = refl

kept : 0 < occ 5 (order fourth.lru_queue)
unfolding fourth get_zone_to_evict promotional_init promotional_update promote link_data delete_link
kept = omega arith

evicts_oldest_example : clock 6 < clock 5
evicts_oldest_example = evicts_oldest fourth 6 5 third-History third_small evicted kept
