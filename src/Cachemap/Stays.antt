-- ===== src/Cachemap/Stays.antt =====
-- What the operations of the cache map leave as it was: the entries of located IDs, with the
-- results that they point to, up to the removal of a zone.
use znworkload.Prelude.{
  ℕ, ◌≡◌, ◌≢◌, ◌⊎◌, inl, inr, some, none, [], ◌∷◌, ◌==◌, arith, ltb, Option-cases, Bool-cases,
}
use znworkload.Run.{Run, ok, ◌>>=◌, bind-ok}
use znworkload.Backend.{Pair}
use znworkload.Cachemap.{
  Cachemap, MapResult, loc, cond, Table, int_key, update, drop_result, Find, cachemap_find,
  find_entry, find_result, cachemap_insert, cachemap_fail, clear_entries, cachemap_clear_zone,
  table,
}
use znworkload.Cachemap.View.{writing, at, view, Inv}
use znworkload.Cachemap.Write.{writing-cond}
use znworkload.Cachemap.Clear.{ZoneCleared}

-- The entries of located IDs, their results and the number of zones stay.
pub record Stays (m m' : Cachemap) : Type 0 where
  pub entry :
      (id a : ℕ) (p : Pair)
      → m.zone_map id ≡ some a
      → m.results a ≡ some (loc p)
      → (m'.zone_map id ≡ some a) × (m'.results a ≡ some (loc p))
  pub zones : m'.num_zones ≡ m.num_zones

abbrev FindStays : Cachemap → Cachemap × Find → Type 0
FindStays m (m', r) = Stays m m'

find_result-Stays :
    (m : Cachemap) (a : ℕ) (r : MapResult) (m' : Cachemap) (f : Find)
    → find_result m a r ≡ ok (m', f)
    → Stays m m'
unfolding find_result
find_result-Stays m a cond m' f e = record {
  entry = λ j b p z x. ground (arith, e);
  zones = ground (arith, e);
}
find_result-Stays m a (loc q) m' f e = record {
  entry = λ j b p z x. ground (arith, e);
  zones = ground (arith, e);
}

pub cachemap_find-Stays :
    (m : Cachemap) (id : ℕ) (m' : Cachemap) (f : Find)
    → Inv m
    → cachemap_find m id ≡ ok (m', f)
    → Stays m m'
unfolding cachemap_find find_entry
cachemap_find-Stays m id m' f v e = elim (Option-cases (m.zone_map id)) [
  | inl unknown ↦ record {
    entry = λ j b p z x. ground (arith, e, unknown, v.live j b z);
    zones = ground (arith, e, unknown);
  }
  | inr (a, known) ↦ elim (Option-cases (m.results a)) [
    | inl freed ↦ absurd (ground (arith, e, known, freed))
    | inr (r, there) ↦ find_result-Stays m a r m' f (ground (arith, e, known, there))
  ]
]

pub cachemap_insert-Stays :
    (m : Cachemap) (id : ℕ) (p : Pair) (m' : Cachemap)
    → Inv m
    → view m id ≡ writing
    → cachemap_insert m id p ≡ ok m'
    → Stays m m'
unfolding cachemap_insert
cachemap_insert-Stays m id p m' v w e =
    let (a, known, pending) = writing-cond m id v w in
    elim (Bool-cases (ltb p.zone m.num_zones)) [
      | inl inside ↦ record {
        entry = λ j b q z x. ground (arith, e, known, pending, inside);
        zones = ground (arith, e, known, pending, inside);
      }
      | inr beyond ↦ absurd (ground (arith, e, known, pending, beyond))
    ]

pub cachemap_fail-Stays :
    (m : Cachemap) (id : ℕ) (m' : Cachemap)
    → Inv m
    → view m id ≡ writing
    → cachemap_fail m id ≡ ok m'
    → Stays m m' × (m'.active_readers ≡ m.active_readers)
unfolding cachemap_fail
cachemap_fail-Stays m id m' v w e =
    let (a, known, pending) = writing-cond m id v w in
    let f : m' ≡ drop_result m id a = ground (arith, e, known, pending) in
    (
      record { entry = λ j b q z x. ground (arith, f, known, pending); zones = ground (arith, f) },
      ground (arith, f),
    )

-- Clearing a zone only removes.
record Shrinks (m m' : Cachemap) : Type 0 where
  key : (j : ℕ) → (m'.zone_map j ≡ m.zone_map j) ⊎ (m'.zone_map j ≡ none)
  result : (a : ℕ) → (m'.results a ≡ m.results a) ⊎ (m'.results a ≡ none)

clear_entries-Shrinks :
    (zone : ℕ) (t : Table) (m m' : Cachemap) → clear_entries zone t m ≡ ok m' → Shrinks m m'
unfolding clear_entries
clear_entries-Shrinks zone [] m m' e = record {
  key = λ j. inl (ground (arith, e));
  result = λ a. inl (ground (arith, e));
}
clear_entries-Shrinks zone ((c, id) ∷ t) m m' e = elim (Option-cases (m.zone_map (int_key id))) [
  | inl unknown ↦ absurd (ground (arith, e, unknown))
  | inr (a, known) ↦ elim (Option-cases (m.results a)) [
    | inl freed ↦ absurd (ground (arith, e, known, freed))
    | inr (cond, there) ↦ absurd (ground (arith, e, known, there))
    | inr (loc q, there) ↦ elim (Bool-cases (q.zone == zone)) [
      | inr other ↦ absurd (ground (arith, e, known, there, other))
      | inl inside ↦
          let ih =
            clear_entries-Shrinks zone t (drop_result m (int_key id) a) m'
              (ground (arith, e, known, there, inside)) in
          record { key = λ j. ground (arith, ih.key j); result = λ b. ground (arith, ih.result b) }
    ]
  ]
]

abbrev clear_rest : Cachemap → ℕ → Table → Run Cachemap
clear_rest m zone t =
    clear_entries zone t m >>= λ g. ok (record g { data_map = update g.data_map zone [] })

-- The entries of the IDs outside the zone stay as they are.
pub cachemap_clear_zone-stays :
    (m : Cachemap) (zone : ℕ) (m' : Cachemap)
    → ZoneCleared m zone m'
    → cachemap_clear_zone m zone ≡ ok m'
    → (id a : ℕ) (p : Pair) → p.zone ≢ zone
    → m.zone_map id ≡ some a
    → m.results a ≡ some (loc p)
    → (m'.zone_map id ≡ some a) × (m'.results a ≡ some (loc p))
unfolding cachemap_clear_zone
cachemap_clear_zone-stays m zone m' c e id a p n z x =
    let (t, table_there, e1) = bind-ok (λ t. clear_rest m zone t) (table m zone) m' e in
    let (g, cleared, e2) =
      bind-ok (λ (g : Cachemap). ok (record g { data_map = update g.data_map zone [] }))
        (clear_entries zone t m) m' e1 in
    let shrinks = clear_entries-Shrinks zone t m g cleared in
    let seen : view m' id ≡ at p = ground (arith, c.seen id, z, x, n) in
    ground (arith, e2, shrinks.key id, shrinks.result a, seen, z, x)
