-- ===== src/Measurements/Sync.antt =====
-- core/measurements.c: how many samples of a measurement were initialised and how many collected.
use osm_firmware_v.Base.{
  ℕ, ◌+◌, ◌≡◌, ◌⊎◌, inl, inr, refl, ap, sym, ◌∙◌, arith, none, some, Bool-cases, Option-cases, ltb,
  leb, ◌==◌, ==_iff,
}
use osm_firmware_v.Measurements.{
  success, busy, error, Inf, Answer, Def, Data, typed, after_init, init_with, sample_init_iteration,
}
use osm_firmware_v.Measurements.Sample.{
  Clock, sample_interval, time_since_interval, boundary, clamp_cache, time_init, sample_init,
  skip_collect, sample_collect_due, sample_collect, sample_active, initialised, both_waits, shorter,
  get_wait,
}
use osm_firmware_v.Common.{since_boot_delta}
use osm_firmware_v.Measurements.Asked.{
  Counters, Synced, Unsummable, Asked, sample_get_iteration-Settles,
}

-- The end of a pass.
abbrev pub Ended : Data → Type 0
Ended d = Synced d × Counters d

pub Asked-Ended :
    (d d' : Data)
    → d.num_samples_collected + 1 ≡ d.num_samples_init
    → Counters d
    → Asked d d'
    → Ended d'
Asked-Ended d d' one (small, small') (same, inl open_) = (
  inr (ap (λ n. n + 1) open_ ∙ one ∙ sym same),
  (omega (arith, small, same), omega (arith, small', open_)),
)
Asked-Ended d d' one (small, small') (same, inr closed) =
    let e : d'.num_samples_collected ≡ d'.num_samples_init =
      omega (arith, closed, same, one, small) in
    (inl e, (omega (arith, small, same), omega (arith, e, small, same)))

pub sample_collect-Ended :
    (answer : Answer) (collect interval since wait : ℕ) (d : Data)
    → Counters d
    → Unsummable answer d
      ⊎ ((wait' : ℕ) × (d' : Data) × (sample_collect answer collect interval since (wait, d)
            ≡ some (wait', d'))
          × Ended d')
unfolding sample_collect sample_collect_due
sample_collect-Ended answer collect interval since wait d (small, small') =
    elim (Bool-cases (d.num_samples_collected == d.num_samples_init)) [
      | inl all ↦ rw (all) (inr (wait, d, refl, (inl ((==_iff _ _).0 all), (small, small'))))
      | inr some_left ↦ elim (Bool-cases (d.num_samples_collected + 1 == d.num_samples_init)) [
        | inr many ↦
            rw (some_left, many)
              (inr (
                wait,
                record d { num_samples_collected = d.num_samples_init },
                refl,
                (inl refl, (small, small)),
              ))
        | inl one ↦ elim (Bool-cases (leb collect since)) [
          | inr early ↦
              rw (some_left, one, early)
                (inr (
                  since_boot_delta collect since,
                  d,
                  refl,
                  (inr ((==_iff _ _).0 one), (small, small')),
                ))
          | inl due ↦ elim (sample_get_iteration-Settles answer d) [
            | inl over ↦ inl over
            | inr (state, d', done, asked) ↦
                rw (some_left, one, due, done)
                  (inr (
                    (get_wait collect interval since (state, d')).0,
                    d',
                    refl,
                    Asked-Ended d d' ((==_iff _ _).0 one) (small, small') asked,
                  ))
          ]
        ]
      ]
    ]

pub init_with-Counters : (inf : Inf) (d : Data) → Counters d → Counters (init_with inf d).1
unfolding init_with after_init
init_with-Counters inf d small = elim (Bool-cases d.is_collecting) [
  | inl already ↦ rw (already) (omega arith, omega arith)
  | inr new ↦ elim (Option-cases inf.init_cb) [
    | inl none_cb ↦ rw (new, none_cb) (omega arith, omega (arith, small.1))
    | inr (success, e) ↦ rw (new, e) (omega arith, omega (arith, small.1))
    | inr (busy, e) ↦ rw (new, e) small
    | inr (error, e) ↦ rw (new, e) (omega arith, omega arith)
  ]
]

pub initialised-Counters :
    (answer : Answer) (d : Data) → Counters d → Counters (sample_init_iteration answer d).1
unfolding sample_init_iteration
initialised-Counters none d small = (omega arith, omega arith)
initialised-Counters (some (inf, t)) d small = init_with-Counters inf (typed t d) small

pub skip_collect-Counters : (d : Data) → Counters d → Counters (skip_collect d)
skip_collect-Counters d small = elim (Bool-cases (ltb d.num_samples_collected d.num_samples_init)) [
  | inl open_ ↦ rw (open_) (small.0, omega arith)
  | inr closed ↦ rw (closed) small
]

-- The counters fit whatever the callbacks answer.
pub sample_init-Counters :
    (answer : Answer) (init since : ℕ) (d : Data)
    → Counters d
    → Counters (sample_init answer init since d).1
unfolding sample_init
sample_init-Counters answer init since d small = elim (Bool-cases (leb init since)) [
  | inr early ↦ rw (early) small
  | inl due ↦
      rw (due) (initialised-Counters answer (skip_collect d) (skip_collect-Counters d small))
]

pub clamp_cache-Counters :
    (def : Def) (t : Clock) (d : Data) → Counters d → Counters (clamp_cache def t d)
unfolding clamp_cache
clamp_cache-Counters def t d small =
    elim (Bool-cases (ltb (boundary def t d.num_samples_init) d.collection_time_cache)) [
      | inl long ↦ rw (long) small
      | inr short ↦ rw (short) small
    ]

-- For counters of seven bits, whatever the interface and the callbacks answer and at any time,
-- one pass of _measurements_sample over an active measurement has a result, unless the reading
-- cannot be added up; then the counters still fit, and the samples collected are those
-- initialised or one fewer.
pub sample_active-Ended :
    (init_answer get_answer : Answer) (def : Def) (t : Clock) (check : ℕ) (d : Data)
    → Counters d
    → Unsummable get_answer (initialised init_answer def t d).1
      ⊎ ((wait : ℕ) × (d' : Data) × (sample_active init_answer get_answer def t (check, d)
            ≡ some (wait, d'))
          × Ended d')
unfolding sample_active
sample_active-Ended init_answer get_answer def t check d small =
    let since : ℕ = time_since_interval def t in
    let (wait, d') = initialised init_answer def t d in
    let small' : Counters d' =
      sample_init-Counters init_answer (time_init def t (clamp_cache def t d)) since
        (clamp_cache def t d) (clamp_cache-Counters def t d small) in
    elim (sample_collect-Ended get_answer (boundary def t d.num_samples_collected)
      (sample_interval def t) since wait d' small') [
        | inl over ↦ inl over
        | inr (wait', d'', done, ended) ↦
            inr (shorter (shorter check wait) wait', d'', ap (both_waits check wait) done, ended)
      ]
