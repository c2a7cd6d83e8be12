-- ===== src/Measurements/Asked.antt =====
-- core/measurements.c: what _measurements_sample_get_iteration makes of the counters.
use osm_firmware_v.Base.{
  ◌+◌, ◌^◌, ◌<◌, ◌≡◌, ◌⊎◌, inl, inr, refl, ap, ◌∙◌, Bool, true, false, Option, none, some,
  Bool-cases, Option-cases, ◌==◌,
}
use osm_firmware_v.Base.Ints.{ℤ}
use osm_firmware_v.Hexblob.{ValueType, invalid, i64, string, f32, other}
use osm_firmware_v.Measurements.{
  SensorState, success, busy, error, Reading, Inf, Answer, Data, Value, value_64, value_f,
  first_stats, bump, bump_collected, get_collection_time, counted, typed, sample_proc_i64,
  sample_proc_float, sample_proc_str, more_stats, stats_64, stats_f,
}
use osm_firmware_v.Measurements.Sample.{
  proc_reading, sample_get_resp, get_from, get_with, sample_get_iteration,
}

-- The counters fit in their seven bits.
abbrev pub Counters : Data → Type 0
Counters d = (d.num_samples_init < 128) × (d.num_samples_collected < 128)

-- At most one sample is initialised and not collected.
abbrev pub Synced : Data → Type 0
Synced d =
    (d.num_samples_collected ≡ d.num_samples_init)
    ⊎ (d.num_samples_collected + 1 ≡ d.num_samples_init)

-- The counters of the other data.
abbrev pub SameCounters : Data → Data → Type 0
SameCounters d d' =
    (d'.num_samples_init ≡ d.num_samples_init)
    × (d'.num_samples_collected ≡ d.num_samples_collected)

-- The sensor's reading cannot be added up: there are samples, of another type or near the end of the
-- range of the sum.
abbrev pub Unsummable : Answer → Data → Type 0
Unsummable answer d =
    (inf : Inf) × (t : ValueType) × (r : Reading) × (answer ≡ some (inf, t))
    × (inf.get_cb ≡ some (success, r))
    × (proc_reading t (sample_get_resp success (typed t d)) r ≡ none)

-- A value is added to the samples, or cannot be.
abbrev pub Counted : Data → Option Data → Type 0
Counted d result = (result ≡ none) ⊎ ((v : Value) × (result ≡ some (counted d v)))

pub sample_proc_i64-Counted : (d : Data) (v : ℤ) → Counted d (sample_proc_i64 d v)
unfolding sample_proc_i64
sample_proc_i64-Counted d v = elim (Bool-cases (d.num_samples == 0)) [
  | inl first ↦ rw (first) (inr (value_64 (first_stats v), refl))
  | inr later ↦ elim (Option-cases (stats_64 d.value)) [
    | inl no_stats ↦ rw (later, no_stats) (inl refl)
    | inr (s, e) ↦ elim (Option-cases (more_stats (2 ^ 63) s v)) [
      | inl over ↦ rw (later, e, over) (inl refl)
      | inr (s', e') ↦ rw (later, e, e') (inr (value_64 s', refl))
    ]
  ]
]

pub sample_proc_float-Counted : (d : Data) (v : ℤ) → Counted d (sample_proc_float d v)
unfolding sample_proc_float
sample_proc_float-Counted d v = elim (Bool-cases (d.num_samples == 0)) [
  | inl first ↦ rw (first) (inr (value_f (first_stats v), refl))
  | inr later ↦ elim (Option-cases (stats_f d.value)) [
    | inl no_stats ↦ rw (later, no_stats) (inl refl)
    | inr (s, e) ↦ elim (Option-cases (more_stats (2 ^ 31) s v)) [
      | inl over ↦ rw (later, e, over) (inl refl)
      | inr (s', e') ↦ rw (later, e, e') (inr (value_f s', refl))
    ]
  ]
]

-- A result with the counters of `d`, or none.
abbrev pub Kept : Data → Option (Bool × Data) → Type 0
Kept d result =
    (result ≡ none)
    ⊎ ((known : Bool) × (d' : Data) × (result ≡ some (known, d')) × SameCounters d d')

pub proc_reading-Kept : (t : ValueType) (d : Data) (r : Reading) → Kept d (proc_reading t d r)
unfolding proc_reading sample_proc_str
proc_reading-Kept i64 d r = elim (sample_proc_i64-Counted d r.v_i64) [
  | inl e ↦ rw (e, proc_reading) (inl refl)
  | inr (v, e) ↦ rw (e, proc_reading) (inr (true, counted d v, refl, (refl, refl)))
]
proc_reading-Kept string d r = inr (true, sample_proc_str d r.v_str, refl, (refl, refl))
proc_reading-Kept f32 d r = elim (sample_proc_float-Counted d r.v_f32) [
  | inl e ↦ rw (e, proc_reading) (inl refl)
  | inr (v, e) ↦ rw (e, proc_reading) (inr (true, counted d v, refl, (refl, refl)))
]
proc_reading-Kept invalid d r = inr (false, d, refl, (refl, refl))
proc_reading-Kept (other n) d r = inr (false, d, refl, (refl, refl))

-- After the sensor was asked: the sample stays open, or is collected.
abbrev pub Asked : Data → Data → Type 0
Asked d d' =
    (d'.num_samples_init ≡ d.num_samples_init)
    × ((d'.num_samples_collected ≡ d.num_samples_collected)
        ⊎ (d'.num_samples_collected ≡ bump d.num_samples_collected))

-- The sensor's answer cannot be added up, or the sample stays open or is collected.
abbrev pub Settles : Data → Option (SensorState × Data) → Type 0
Settles d result = (state : SensorState) × (d' : Data) × (result ≡ some (state, d')) × Asked d d'

pub get_with-Settles :
    (inf : Inf) (state : SensorState) (r : Reading) (d : Data)
    → ((state ≡ success) × (proc_reading d.value_type (sample_get_resp success d) r ≡ none))
      ⊎ Settles d (get_with inf state r d)
unfolding get_with sample_get_resp
get_with-Settles inf success r d =
    elim (proc_reading-Kept d.value_type (sample_get_resp success d) r) [
      | inl over ↦ inl (refl, over)
      | inr (true, d', done, (same, same')) ↦ inr (
        success,
        record d' { collection_time_cache = get_collection_time inf },
        rw (done, get_with) refl,
        (same, inr same'),
      )
      | inr (false, d', done, (same, same')) ↦
          inr (success, d', rw (done, get_with) refl, (same, inr same'))
    ]
get_with-Settles inf busy r d = inr (busy, sample_get_resp busy d, refl, (refl, inl refl))
get_with-Settles inf error r d = inr (error, sample_get_resp error d, refl, (refl, inr refl))

pub sample_get_iteration-Settles :
    (answer : Answer) (d : Data) → Unsummable answer d ⊎ Settles d (sample_get_iteration answer d)
unfolding sample_get_iteration get_from
sample_get_iteration-Settles none d = inr (error, bump_collected d, refl, (refl, inr refl))
sample_get_iteration-Settles (some (inf, t)) d = elim (Option-cases inf.get_cb) [
  | inl none_cb ↦
      inr
        (error, bump_collected (typed t d), ap (get_from inf (typed t d)) none_cb, (refl, inr refl))
  | inr ((state, r), e) ↦ elim (get_with-Settles inf state r (typed t d)) [
    | inl (is_success, over) ↦ inl (inf, t, r, refl, e ∙ ap (λ x. some (x, r)) is_success, over)
    | inr (state', d', done, asked) ↦
        inr (state', d', ap (get_from inf (typed t d)) e ∙ done, asked)
  ]
]
