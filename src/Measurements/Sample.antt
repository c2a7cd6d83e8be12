-- ===== src/Measurements/Sample.antt =====
-- core/measurements.c: a reading is collected, and the body of the loop of _measurements_sample.
use osm_firmware_v.Base.{
  ℕ, ◌+◌, ◌/◌, ◌%◌, Bool, true, false, ◌&&◌, Option, none, some, ltb, leb, ◌==◌, if◌then◌else◌,
}
use osm_firmware_v.Base.Words.{add32, sub32, mul32}
use osm_firmware_v.Common.{since_boot_delta}
use osm_firmware_v.Hexblob.{ValueType, invalid, i64, string, f32, other}
use osm_firmware_v.Measurements.{
  SensorState, success, busy, error, Reading, Inf, Answer, Def, Data, bump_collected, typed,
  get_collection_time, sample_init_iteration, sample_proc_i64, sample_proc_float, sample_proc_str,
}

-- The `switch` on the value type in _measurements_sample_get_iteration: whether the type is known,
-- and the data with the reading.
unfoldable pub proc_reading : ValueType → Data → Reading → Option (Bool × Data)
proc_reading i64 d r = elim (sample_proc_i64 d r.v_i64) [ none ↦ none | some d' ↦ some (true, d') ]
proc_reading string d r = some (true, sample_proc_str d r.v_str)
proc_reading f32 d r = elim (sample_proc_float d r.v_f32) [
  | none ↦ none
  | some d' ↦ some (true, d')
]
proc_reading invalid d r = some (false, d)
proc_reading (other n) d r = some (false, d)

-- _measurements_sample_get_resp on the data.
unfoldable pub sample_get_resp : SensorState → Data → Data
sample_get_resp success d = bump_collected (record d { is_collecting = false })
sample_get_resp busy d = record d { is_collecting = false }
sample_get_resp error d = bump_collected (record d { is_collecting = false })

-- A reading of a known type; for another type the code returns false, which is the state of success.
abbrev pub cached : Inf → Bool × Data → SensorState × Data
cached inf (known, d) =
    (success, if known then record d { collection_time_cache = get_collection_time inf } else d)

-- _measurements_sample_get_iteration behind the call of the sensor.
unfoldable pub get_with : Inf → SensorState → Reading → Data → Option (SensorState × Data)
get_with inf success r d = elim (proc_reading d.value_type (sample_get_resp success d) r) [
  | none ↦ none
  | some result ↦ some (cached inf result)
]
get_with inf busy r d = some (busy, sample_get_resp busy d)
get_with inf error r d = some (error, sample_get_resp error d)

-- Without a callback nothing can be collected.
unfoldable pub get_from : Inf → Data → Option (SensorState × Reading) → Option (SensorState × Data)
get_from inf d none = some (error, bump_collected d)
get_from inf d (some (state, r)) = get_with inf state r d

-- _measurements_sample_get_iteration
unfoldable pub sample_get_iteration : Answer → Data → Option (SensorState × Data)
sample_get_iteration none d = some (error, bump_collected d)
sample_get_iteration (some (inf, t)) d = get_from inf (typed t d) inf.get_cb

-- The times of one measurement in _measurements_sample, in milliseconds: INTERVAL_TRANSMIT_MS, the
-- time since the last message and _interval_count.
pub record Clock : Type 0 where
  pub transmit_ms : ℕ
  pub since_sent : ℕ
  pub interval_count : ℕ

unfoldable pub sample_interval : Def → Clock → ℕ
sample_interval def t = mul32 def.interval t.transmit_ms / def.samplecount

unfoldable pub time_since_interval : Def → Clock → ℕ
time_since_interval def t =
    add32 t.since_sent (mul32 (t.interval_count % def.interval) t.transmit_ms)

-- The middle of the sample with a number, or 10 ms before its end.
unfoldable pub boundary : Def → Clock → ℕ → ℕ
boundary def t n =
    let start = mul32 n (sample_interval def t) in
    if def.is_immediate && (def.samplecount == 1)
    then sub32 (add32 start (sample_interval def t)) 10
    else add32 start (sample_interval def t / 2)

-- The cached collection time is no longer than the boundary.
unfoldable pub clamp_cache : Def → Clock → Data → Data
clamp_cache def t d =
    if ltb (boundary def t d.num_samples_init) d.collection_time_cache
    then record d { collection_time_cache = boundary def t d.num_samples_init }
    else d

unfoldable pub time_init : Def → Clock → Data → ℕ
time_init def t d = sub32 (boundary def t d.num_samples_init) d.collection_time_cache

-- A sample that was not collected before the next is initialised counts as collected.
abbrev pub skip_collect : Data → Data
skip_collect d = if ltb d.num_samples_collected d.num_samples_init then bump_collected d else d

-- A busy sensor is asked again at once.
unfoldable pub unless_busy : SensorState → ℕ → ℕ
unless_busy busy wait = 0
unless_busy _ wait = wait

abbrev pub init_wait : ℕ → ℕ → SensorState × Data → ℕ × Data
init_wait init since (state, d) =
    (unless_busy state (since_boot_delta (add32 d.collection_time_cache init) since), d)

-- The first half of the loop's body: the wait, and the data.
unfoldable pub sample_init : Answer → ℕ → ℕ → Data → ℕ × Data
sample_init answer init since d =
    if leb init since
    then init_wait init since (sample_init_iteration answer (skip_collect d))
    else (since_boot_delta init since, d)

abbrev pub get_wait : ℕ → ℕ → ℕ → SensorState × Data → ℕ × Data
get_wait collect interval since (state, d) = (
  unless_busy state
      (since_boot_delta (add32 collect interval) (add32 d.collection_time_cache since)),
  d,
)

unfoldable pub sample_collect_due : Answer → ℕ → ℕ → ℕ → Data → Option (ℕ × Data)
sample_collect_due answer collect interval since d =
    if leb collect since
    then elim (sample_get_iteration answer d) [
      | none ↦ none
      | some result ↦ some (get_wait collect interval since result)
    ]
    else some (since_boot_delta collect since, d)

-- The second half, with the wait of the first.
unfoldable pub sample_collect : Answer → ℕ → ℕ → ℕ → ℕ × Data → Option (ℕ × Data)
sample_collect answer collect interval since (wait, d) =
    if d.num_samples_collected == d.num_samples_init
    then some (wait, d)
    else (if d.num_samples_collected + 1 == d.num_samples_init
        then sample_collect_due answer collect interval since d
        else some (wait, record d { num_samples_collected = d.num_samples_init }))

abbrev pub shorter : ℕ → ℕ → ℕ
shorter check wait = if ltb wait check then wait else check

-- The shortest wait with both of a pass.
abbrev pub both_waits : ℕ → ℕ → Option (ℕ × Data) → Option (ℕ × Data)
both_waits check first none = none
both_waits check first (some (second, d)) = some (shorter (shorter check first) second, d)

-- The first half for a measurement.
abbrev pub initialised : Answer → Def → Clock → Data → ℕ × Data
initialised answer def t d =
    let d' = clamp_cache def t d in
    sample_init answer (time_init def t d') (time_since_interval def t) d'

-- The body of the loop of _measurements_sample for an active measurement, with the shortest wait
-- until now.
unfoldable pub sample_active : Answer → Answer → Def → Clock → ℕ × Data → Option (ℕ × Data)
sample_active init_answer get_answer def t (check, d) =
    both_waits check (initialised init_answer def t d).0 (
      sample_collect get_answer (boundary def t d.num_samples_collected) (sample_interval def t)
        (time_since_interval def t) (initialised init_answer def t d))
