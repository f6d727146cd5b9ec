-- ===== src/Concurrent/Moving.antt =====
-- A thread of src/cache.c that does not wait goes on to another place with every step.
use znworkload.Prelude.{
  ℕ, zero, suc, ◌≡◌, ◌≢◌, refl, Bool, true, false, Option, some, none, arith, get_elem?,
  get_elem?-set, get_elem?-lt, ◌==◌, if◌then◌else◌, minus_one, Bool-cases, inl, inr,
}
use znworkload.Run.{Run, ok, ◌>>◌, assert, bind-ok}
use znworkload.Backend.{Pair}
use znworkload.Zsm.{
  Zsm, Zbd, ActiveZone, success, retry, error, evict, get_active_zone, return_active_zone,
  failed_to_write, evict_zone,
}
use znworkload.Cachemap.{
  Cachemap, Find, hit, wait, write_it, cachemap_find, read_result, cachemap_insert, cachemap_fail,
  cachemap_clear_zone,
}
use znworkload.Promotional.{Policy, promotional_update, get_zone_to_evict, read, write}
use znworkload.Eviction.{to_evict}
use znworkload.Get.{reader_done}
use znworkload.Chunks.{Io, confined, put_chunk_content, reset_content}
use znworkload.Concurrent.{
  System, Pc, idle, finding, copying, reading, promoting, leaving, done, locating, writing,
  returning, noting, publishing, failing, undoing, counting, choosing, clearing, waiting, resetting,
  enter, after_find, after_location, after_evict, reader_step, writer_step, evictor_step,
  thread_step,
}
use znworkload.Concurrent.Progress.{blocked, in_call}

module _ (s : System) (i : ℕ) (io : Io) (zbd : Zbd) (t : System) where
  -- The thread is at its new place after the step.
  entered :
      (d : System) (old new : Pc)
      → get_elem? s.threads i ≡ some old
      → d.threads ≡ s.threads
      → ◌≡◌ {A = Run System} (ok (enter d i new)) (ok t)
      → new ≢ old
      → get_elem? t.threads i ≢ some old
  entered d old new here same e n h =
      let lt = get_elem?-lt s.threads i here in
      n (ground (arith, e, h, same, get_elem?-set s.threads i i new lt))

  abbrev pub Goes : Pc → Type 0
  Goes old =
      get_elem? s.threads i ≡ some old
      → thread_step s i io zbd old ≡ ok t
      → in_call old ≡ true
      → blocked zbd s old ≡ false
      → get_elem? t.threads i ≢ some old

  finding-Goes : (id : ℕ) → Goes (finding id)
  unfolding thread_step reader_step
  finding-Goes id here e c b =
      let ((m, r), ran, e') =
        bind-ok
          (λ (x : Cachemap × Find).
            ok (enter (record s { cache_map = x.0 }) i (after_find s.cache_map id x.1)))
          (cachemap_find s.cache_map id) t e in
      by_find m r ran e'
    where
      by_find :
          (m : Cachemap) (r : Find)
          → cachemap_find s.cache_map id ≡ ok (m, r)
          → ◌≡◌ {A = Run System}
              (ok (enter (record s { cache_map = m }) i (after_find s.cache_map id r)))
              (ok t)
          → get_elem? t.threads i ≢ some (finding id)
      by_find m wait ran e' = absurd (ground (arith, ran, b))
      by_find m (hit a) ran e' =
          entered (record s { cache_map = m }) (finding id) (after_find s.cache_map id (hit a)) here
            refl e' (λ q. cc)
      by_find m write_it ran e' =
          entered (record s { cache_map = m }) (finding id) (locating id) here refl e' (λ q. cc)

  locating-Goes : (id : ℕ) → Goes (locating id)
  unfolding thread_step writer_step
  locating-Goes id here e c b =
      let ((zs, r), ran, e') =
        bind-ok
          (λ (x : Zsm × ActiveZone).
            ok (enter (record s { zone_state = x.0 }) i (after_location id x.1)))
          (get_active_zone zbd s.zone_state) t e in
      by_answer zs r ran e'
    where
      by_answer :
          (zs : Zsm) (r : ActiveZone)
          → get_active_zone zbd s.zone_state ≡ ok (zs, r)
          → ◌≡◌ {A = Run System}
              (ok (enter (record s { zone_state = zs }) i (after_location id r)))
              (ok t)
          → get_elem? t.threads i ≢ some (locating id)
      by_answer zs retry ran e' = absurd (ground (arith, ran, b))
      by_answer zs (success p) ran e' =
          entered (record s { zone_state = zs }) (locating id) (writing id p) here refl e' (λ q. cc)
      by_answer zs error ran e' =
          entered (record s { zone_state = zs }) (locating id) (undoing id) here refl e' (λ q. cc)
      by_answer zs evict ran e' =
          entered (record s { zone_state = zs }) (locating id) (counting (some id)) here refl e'
            (λ q. cc)

  choosing-Goes : (r : Option ℕ) (k : ℕ) → Goes (choosing r k)
  unfolding thread_step evictor_step
  choosing-Goes r zero here e c b =
      entered s (choosing r zero) (after_evict r) here refl e (returned r zero)
    where
      returned : (r : Option ℕ) (k : ℕ) → after_evict r ≢ choosing r k
      returned none k q = cc
      returned (some id) k q = cc
  choosing-Goes r (suc k) here e c b =
      let ((q, z), ran, e') =
        bind-ok
          (λ (x : Policy × ℕ). ok (
            enter (record s { eviction_policy = x.0 }) i
              (if x.1 == minus_one then after_evict r else clearing r k x.1)))
          (get_zone_to_evict s.eviction_policy) t e in
      entered (record s { eviction_policy = q }) (choosing r (suc k)) _ here refl e'
        (chosen (z == minus_one) r z)
    where
      chosen :
          (b : Bool) (r : Option ℕ) (z : ℕ)
          → (if b then after_evict r else clearing r k z) ≢ choosing r (suc k)
      chosen true none z h = cc
      chosen true (some id) z h = cc
      chosen false r z h = cc

  pub thread_step-Goes : (old : Pc) → Goes old
  unfolding thread_step reader_step writer_step evictor_step
  thread_step-Goes idle here e c b = cc
  thread_step-Goes (finding id) here e c b = finding-Goes id here e c b
  thread_step-Goes (copying id a p) here e c b =
      let (q, ran, e') =
        bind-ok (λ (q : Pair). ok (enter s i (reading id q))) (read_result s.cache_map a) t e in
      entered s (copying id a p) (reading id q) here refl e' (λ h. cc)
  thread_step-Goes (reading id p) here e c b =
      entered s (reading id p) (promoting id p _) here refl e (λ h. cc)
  thread_step-Goes (promoting id p d) here e c b =
      let (q, ran, e') =
        bind-ok (λ (q : Policy). ok (enter (record s { eviction_policy = q }) i (leaving id p d)))
          (promotional_update s.eviction_policy p read) t e in
      entered (record s { eviction_policy = q }) (promoting id p d) (leaving id p d) here refl e'
        (λ h. cc)
  thread_step-Goes (leaving id p d) here e c b =
      entered (record s { cache_map = reader_done s.cache_map p.zone }) (leaving id p d) (done id d)
        here refl e (λ h. cc)
  thread_step-Goes (done id d) here e c b = cc
  thread_step-Goes (locating id) here e c b = locating-Goes id here e c b
  thread_step-Goes (writing id p) here e c b = elim (Bool-cases io.success) [
    | inl good ↦
        entered
          (record s { contents = put_chunk_content s.contents (confined s.layout io) p (some id) })
          (writing id p) (returning id p) here refl (rw good at e) (λ h. cc)
    | inr bad ↦
        entered (record s { contents = put_chunk_content s.contents (confined s.layout io) p none })
          (writing id p) (failing id p) here refl (rw bad at e) (λ h. cc)
  ]
  thread_step-Goes (returning id p) here e c b =
      let (x, ran, e') =
        bind-ok (λ (x : Zsm × ℕ). ok (enter (record s { zone_state = x.0 }) i (noting id p)))
          (return_active_zone zbd s.zone_state p) t e in
      entered (record s { zone_state = x.0 }) (returning id p) (noting id p) here refl e' (λ h. cc)
  thread_step-Goes (noting id p) here e c b =
      let (q, ran, e') =
        bind-ok (λ (q : Policy). ok (enter (record s { eviction_policy = q }) i (publishing id p)))
          (promotional_update s.eviction_policy p write) t e in
      entered (record s { eviction_policy = q }) (noting id p) (publishing id p) here refl e'
        (λ h. cc)
  thread_step-Goes (publishing id p) here e c b =
      let (m, ran, e') =
        bind-ok
          (λ (m : Cachemap). ok (enter (record s { cache_map = m }) i (done id (some (some id)))))
          (cachemap_insert s.cache_map id p) t e in
      entered (record s { cache_map = m }) (publishing id p) (done id (some (some id))) here refl e'
        (λ h. cc)
  thread_step-Goes (failing id p) here e c b =
      let (zs, ran, e') =
        bind-ok (λ (zs : Zsm). ok (enter (record s { zone_state = zs }) i (undoing id)))
          (failed_to_write s.zone_state p) t e in
      entered (record s { zone_state = zs }) (failing id p) (undoing id) here refl e' (λ h. cc)
  thread_step-Goes (undoing id) here e c b =
      let (m, ran, e') =
        bind-ok (λ (m : Cachemap). ok (enter (record s { cache_map = m }) i (done id none)))
          (cachemap_fail s.cache_map id) t e in
      entered (record s { cache_map = m }) (undoing id) (done id none) here refl e' (λ h. cc)
  thread_step-Goes (counting r) here e c b =
      entered s (counting r) (choosing r (to_evict s.zone_state)) here refl e (λ h. cc)
  thread_step-Goes (choosing r k) here e c b = choosing-Goes r k here e c b
  thread_step-Goes (clearing r k z) here e c b =
      let (m, ran, e') =
        bind-ok (λ (m : Cachemap). ok (enter (record s { cache_map = m }) i (waiting r k z)))
          (cachemap_clear_zone s.cache_map z) t e in
      entered (record s { cache_map = m }) (clearing r k z) (waiting r k z) here refl e' (λ h. cc)
  thread_step-Goes (waiting r k z) here e c b =
      entered s (waiting r k z) (resetting r k z) here refl (rw b at e) (λ h. cc)
  thread_step-Goes (resetting r k z) here e c b =
      let (x, ran, e') =
        bind-ok
          (λ (x : Zsm × ℕ).
            assert (x.1 == 0)
            >> ok (
                enter
                  (record s {
                    zone_state = x.0;
                    contents = reset_content s.contents s.zone_state.backend_type z;
                  })
                  i (choosing r k)))
          (evict_zone zbd s.zone_state z) t e in
      let (y, passed, e'') =
        bind-ok
          (λ (y : Unit {0}). ok (
            enter
              (record s {
                zone_state = x.0;
                contents = reset_content s.contents s.zone_state.backend_type z;
              })
              i (choosing r k)))
          (assert (x.1 == 0)) t e' in
      entered
        (record s {
          zone_state = x.0;
          contents = reset_content s.contents s.zone_state.backend_type z;
        })
        (resetting r k z) (choosing r k) here refl e'' (λ h. cc)
