-- ===== src/Measurements.antt =====
-- core/measurements.c: the samples of one measurement, from the sensor's callbacks to the sum,
-- maximum and minimum that are sent. The model of a board gives the interface of a sensor; it and
-- the callbacks are parameters: `Answer` has what they return in one call. Signed overflow, which C
-- leaves undefined, is no result. Debug output is left out.
pub mod Sample
pub mod Statistics
pub mod Asked
pub mod Sync
pub mod Payload
pub mod Send
pub mod Fragments
pub mod Resume
pub mod Transmission
pub mod Entries
pub mod Uplink
mod Tests
use osm_firmware_v.Base.{
  ℕ, ◌+◌, ◌-◌, ◌*◌, ◌/◌, ◌%◌, ◌^◌, Bool, true, false, not, ◌&&◌, ◌||◌, List, [], ◌∷◌, Option, none,
  some, ltb, leb, ◌==◌, if◌then◌else◌, take, min,
}
use osm_firmware_v.Base.Words.{add32, sub32, mul32}
use osm_firmware_v.Base.Strings.{strnlen}
use osm_firmware_v.Base.Ints.{ℤ, pos, negsuc, ltbℤ, ◌+ℤ◌}
use osm_firmware_v.Common.{since_boot_delta}
use osm_firmware_v.Hexblob.{Stats, ValueType, invalid, i64, string, f32, other}

-- `osm_measurements_sensor_state_t`
pub data SensorState : Type 0 where
  success busy error : SensorState

-- `osm_measurements_reading_t`: what the members of the union read as.
pub record Reading : Type 0 where
  pub v_i64 : ℤ
  pub v_f32 : ℤ
  pub v_str : List ℕ

-- `osm_measurements_inf_t`: the callbacks, where there are any, by what they return now.
pub record Inf : Type 0 where
  pub collection_time_cb : Option (SensorState × ℕ)
  pub init_cb : Option SensorState
  pub iteration_cb : Option SensorState
  pub get_cb : Option (SensorState × Reading)

-- osm_model_measurements_get_inf: the interface, if the model has one, and the value type that it
-- puts into the data.
abbrev pub Answer : Type 0
Answer = Option (Inf × ValueType)

-- `osm_measurements_value_t`
pub data Value : Type 0 where
  value_64 : Stats → Value
  value_f : Stats → Value
  value_s : List ℕ → Value

-- The fields of `osm_measurements_def_t` and `osm_measurements_data_t` that sampling uses.
pub record Def : Type 0 where
  pub name : List ℕ
  pub interval : ℕ
  pub samplecount : ℕ
  pub is_immediate : Bool

pub record Data : Type 0 where
  pub value : Value
  pub value_type : ValueType
  pub is_collecting : Bool
  pub num_samples : ℕ
  pub num_samples_init : ℕ
  pub num_samples_collected : ℕ
  pub collection_time_cache : ℕ

-- `n++` on a field of seven bits.
abbrev pub bump : ℕ → ℕ
bump n = (n + 1) % 2 ^ 7

abbrev pub bump_init : Data → Data
bump_init d = record d { num_samples_init = bump d.num_samples_init }

abbrev pub bump_collected : Data → Data
bump_collected d = record d { num_samples_collected = bump d.num_samples_collected }

-- _measurements_def_is_active
unfoldable pub def_is_active : Def → Bool
def_is_active def = not (def.interval == 0 || def.samplecount == 0 || strnlen def.name 1 == 0)

-- _measurements_get_collection_time
unfoldable pub get_collection_time : Inf → ℕ
get_collection_time inf = elim inf.collection_time_cb [
  | none ↦ elim inf.init_cb [ none ↦ 0 | some _ ↦ 1000 ]
  | some (state, time) ↦ elim state [ success ↦ time | busy ↦ 1000 | error ↦ 1000 ]
]

-- The interface writes the value type.
abbrev pub typed : ValueType → Data → Data
typed t d = record d { value_type = t }

-- The `switch` of _measurements_sample_init_iteration.
unfoldable pub after_init : SensorState → Data → Data
after_init success d = record (bump_init d) { is_collecting = true }
after_init busy d = d
after_init error d = bump_collected (bump_init d)

-- _measurements_sample_init_iteration behind the interface.
unfoldable pub init_with : Inf → Data → SensorState × Data
init_with inf d =
    if d.is_collecting then (error, bump_collected (bump_init d)) else elim inf.init_cb [
      | none ↦ (error, record (bump_init d) { is_collecting = true })
      | some state ↦ (state, after_init state d)
    ]

-- _measurements_sample_init_iteration
unfoldable pub sample_init_iteration : Answer → Data → SensorState × Data
sample_init_iteration none d =
    (error, record (bump_collected (bump_init d)) { is_collecting = false })
sample_init_iteration (some (inf, t)) d = init_with inf (typed t d)

-- The `switch` of _measurements_sample_iteration_iteration.
unfoldable pub after_iteration : SensorState → Data → Bool × Data
after_iteration success d = (true, d)
after_iteration busy d = (true, d)
after_iteration error d = (false, record (bump_collected (bump_init d)) { is_collecting = false })

-- _measurements_sample_iteration_iteration
unfoldable pub sample_iteration_iteration : Answer → Data → Bool × Data
sample_iteration_iteration none d =
    (false, record (bump_collected (bump_init d)) { is_collecting = false })
sample_iteration_iteration (some (inf, t)) d = elim inf.iteration_cb [
  | none ↦ (false, typed t d)
  | some state ↦ after_iteration state (typed t d)
]

-- A signed value of a type with 2 ^ w values, `m` being half of them.
abbrev pub in_range : ℕ → ℤ → Bool
in_range m v = ltbℤ v (pos m) && not (ltbℤ v (negsuc (m - 1)))

abbrev pub first_stats : ℤ → Stats
first_stats v = record { sum = v; max = v; min = v }

-- The samples behind the first.
unfoldable pub more_stats : ℕ → Stats → ℤ → Option Stats
more_stats m s v =
    if in_range m (s.sum +ℤ v)
    then some (record {
      sum = s.sum +ℤ v;
      max = if ltbℤ s.max v then v else s.max;
      min = if ltbℤ s.max v then s.min else (if ltbℤ v s.min then v else s.min);
    })
    else none

abbrev pub counted : Data → Value → Data
counted d v = record d { num_samples = bump d.num_samples; value = v }

unfoldable pub stats_64 : Value → Option Stats
stats_64 (value_64 s) = some s
stats_64 _ = none

unfoldable pub stats_f : Value → Option Stats
stats_f (value_f s) = some s
stats_f _ = none

-- _measurements_sample_proc_i64; to read the other members of the union is no result.
unfoldable pub sample_proc_i64 : Data → ℤ → Option Data
sample_proc_i64 d v =
    if d.num_samples == 0
    then some (counted d (value_64 (first_stats v)))
    else elim (stats_64 d.value) [
      | none ↦ none
      | some s ↦ elim (more_stats (2 ^ 63) s v) [
        | none ↦ none
        | some s' ↦ some (counted d (value_64 s'))
      ]
    ]

-- _measurements_sample_proc_float
unfoldable pub sample_proc_float : Data → ℤ → Option Data
sample_proc_float d v =
    if d.num_samples == 0
    then some (counted d (value_f (first_stats v)))
    else elim (stats_f d.value) [
      | none ↦ none
      | some s ↦ elim (more_stats (2 ^ 31) s v) [
        | none ↦ none
        | some s' ↦ some (counted d (value_f s'))
      ]
    ]

-- _measurements_sample_proc_str: OSM_MEASUREMENTS_VALUE_STR_LEN - 1 characters at most.
unfoldable pub sample_proc_str : Data → List ℕ → Data
sample_proc_str d s = counted d (value_s (take (strnlen s 22) s))
