-- ===== src/Hexblob/Tests.antt =====
-- Runs of protocols/hexblob.c on small arrays, and the theorems about it applied there.
use osm_firmware_v.Base.{
  ℕ, ◌≡◌, refl, List, [], ◌∷◌, ◌++◌, Bool, true, false, some, none, arith, take, drop, replicate,
}
use osm_firmware_v.Base.Ints.{pos, negsuc}
use osm_firmware_v.Hexblob.{
  Ctx, i64, Sampled, Stats, MeasDef, append_measurement, append_value_type_i64,
  append_data_type_float, send_error_code, name_word, compressed_type,
}
use osm_firmware_v.Hexblob.Append.{Ready}
use osm_firmware_v.Hexblob.Encode.{int_bytes}
use osm_firmware_v.Hexblob.Decode.{number, get_value, get_measurement}
use osm_firmware_v.Hexblob.Integers.{get_value-int_bytes}
use osm_firmware_v.Hexblob.Measurement.{
  Settled, measurement_bytes, append_measurement-Settled, averages, is_known, values,
}
use osm_firmware_v.Hexblob.Reception.{InRange, is_countable, meant}
use osm_firmware_v.Hexblob.Float.{Readable, append_data_type_float-get_value}
use osm_firmware_v.Hexblob.Uplink.{append_measurement-get_measurement}
use osm_firmware_v.Hexblob.Error.{send_error_code_lem, report}

-- "TEMP", averaged over two samples.
abbrev temp : MeasDef
temp = record { name = 84 ∷ 69 ∷ 77 ∷ 80 ∷ 0 ∷ []; samplecount = 2 }

abbrev none_yet : Stats
none_yet = record { sum = pos 0; max = pos 0; min = pos 0 }

abbrev two_samples : Sampled
two_samples = record {
  value_type = i64;
  num_samples = 2;
  value_64 = record { sum = negsuc 599; max = pos 100; min = negsuc 699 };
  value_f = none_yet;
  value_s = [];
}

abbrev ctx : ℕ → Ctx
ctx n = record { buf = some (replicate 16 0); buflen = n; pos = 1 }

ctx-Ready : Ready (replicate 16 0) (ctx 16)
ctx-Ready = record { array = refl; fits = omega arith; within = omega arith }

short-Ready : Ready (replicate 16 0) (ctx 12)
short-Ready = record { array = refl; fits = omega arith; within = omega arith }

-- No samples to average: the code divides by zero.
divides_by_zero : append_measurement temp (record two_samples { num_samples = 0 }) (ctx 16) ≡ none
unfolding append_measurement append_value_type_i64
divides_by_zero = refl

get_value-int_bytes_example :
    get_value (int_bytes (negsuc 299) ++ (7 ∷ [])) ≡ some (number (negsuc 299), 7 ∷ [])
get_value-int_bytes_example = get_value-int_bytes (negsuc 299) (7 ∷ []) (omega arith, omega arith)

append_data_type_float-get_value_example :
    Readable (replicate 16 0) (ctx 16) (negsuc 299) (append_data_type_float (negsuc 299) (ctx 16))
append_data_type_float-get_value_example =
    append_data_type_float-get_value (negsuc 299) (replicate 16 0) (ctx 16) ctx-Ready (omega arith)
      (omega arith, omega arith)

append_measurement-Settled_example :
    (res : Bool × Ctx) × (append_measurement temp two_samples (ctx 12) ≡ some res)
    × Settled (replicate 16 0) (ctx 12) (measurement_bytes temp two_samples) (is_known i64) res
unfolding averages
append_measurement-Settled_example =
    append_measurement-Settled temp two_samples (replicate 16 0) (ctx 12) short-Ready refl

append_measurement-get_measurement_example :
    (c' : Ctx) × (b' : List ℕ) × (append_measurement temp two_samples (ctx 16) ≡ some (true, c'))
    × (c'.buf ≡ some b')
    × (get_measurement (drop 1 (take c'.pos b'))
        ≡ some ((name_word temp.name, meant i64 two_samples false), []))
unfolding averages is_countable InRange values int_bytes compressed_type
append_measurement-get_measurement_example =
    append_measurement-get_measurement temp two_samples (replicate 16 0) (ctx 16) ctx-Ready refl
      refl ((omega arith, omega arith), (omega arith, omega arith), (omega arith, omega arith))
      (omega arith)

send_error_code_lem_example : send_error_code 3 (ctx 16) ≡ (some (some (report 0x01 3), 8), ctx 16)
send_error_code_lem_example = send_error_code_lem 3 (ctx 16) (omega arith)
