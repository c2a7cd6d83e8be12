-- ===== src/Measurements/Tests.antt =====
-- Runs of core/measurements.c, and the theorems about it applied there.
use mathlib.Core.Option
use osm_firmware_v.Measurements.Send.{
  Entry, Sender, queue_from, after_queue, send_fragment, go_on, transmit,
}
use osm_firmware_v.Measurements.Fragments.{waiting, all_passed, all_bytes, all_held}
use osm_firmware_v.Measurements.Entries.{Raw, append_entry, entry_bytes, body_of}
use osm_firmware_v.Measurements.Uplink.{AllSendable, transmit-entry_bytes}
use osm_firmware_v.Hexblob.Encode.{int_bytes, width}
use osm_firmware_v.Hexblob.Measurement.{is_known, values}
use osm_firmware_v.Base.{
  false, List, map, inl, ℕ, ◌≡◌, ◌⊎◌, refl, arith, [], ◌∷◌, none, some, replicate,
}
use osm_firmware_v.Base.Ints.{pos, negsuc, ◌+ℤ◌}
use osm_firmware_v.Hexblob.{
  Ctx, Stats, i64, MeasDef, compressed_type, protocol_init, append_measurement,
  append_value_type_i64, append_data_type_i64, append_i8, append_i16, append_i32, append_as, code,
}
use osm_firmware_v.Hexblob.Append.{Ready}
use osm_firmware_v.Measurements.{
  success, Answer, Def, Data, value_64, value_s, first_stats, more_stats, stats_64,
  sample_init_iteration, init_with, after_init, get_collection_time, sample_proc_i64,
}
use osm_firmware_v.Measurements.Sample.{
  Clock, sample_interval, time_since_interval, boundary, clamp_cache, time_init, sample_init,
  sample_collect, sample_collect_due, sample_active, initialised, sample_get_iteration, get_from,
  get_with, sample_get_resp, proc_reading, unless_busy,
}
use osm_firmware_v.Common.{since_boot_delta}
use osm_firmware_v.Measurements.Asked.{Unsummable}
use osm_firmware_v.Measurements.Sync.{Ended, sample_active-Ended}
use osm_firmware_v.Measurements.Statistics.{collect_64, AllSmall, StatsOf}
use osm_firmware_v.Measurements.Payload.{Arrives, collect_64-get_measurement}

-- A measurement of five samples in one interval of 900 seconds, not yet sampled.
abbrev temperature : Def
temperature = record {
  name = 84 ∷ 69 ∷ 77 ∷ 80 ∷ [];
  interval = 1;
  samplecount = 5;
  is_immediate = false;
}

abbrev unsampled : Data
unsampled = record {
  value = value_s [];
  value_type = i64;
  is_collecting = false;
  num_samples = 0;
  num_samples_init = 0;
  num_samples_collected = 0;
  collection_time_cache = 1000;
}

-- A sensor that answers 21 at once.
abbrev sensor : Answer
sensor = some (
  record {
    collection_time_cb = none;
    init_cb = some success;
    iteration_cb = none;
    get_cb = some (success, record { v_i64 = pos 21; v_f32 = pos 0; v_str = [] });
  },
  i64,
)

-- 100 seconds after the last message, the first sample's middle is past.
abbrev clock : Clock
clock = record { transmit_ms = 900000; since_sent = 100000; interval_count = 0 }

first_sample :
    sample_active sensor sensor temperature clock (5000000, unsampled)
    ≡ some (
      169000,
      record unsampled {
        value = value_64 (first_stats (pos 21));
        num_samples = 1;
        num_samples_init = 1;
        num_samples_collected = 1;
      },
    )
unfolding sample_active sample_init sample_collect sample_collect_due sample_init_iteration
    init_with after_init sample_get_iteration get_from get_with sample_get_resp proc_reading
    sample_proc_i64 get_collection_time sample_interval time_since_interval boundary clamp_cache
    time_init unless_busy since_boot_delta
first_sample = refl

sample_active-Ended_example :
    Unsummable sensor (initialised sensor temperature clock unsampled).1
    ⊎ ((wait : ℕ) × (d : Data) × (sample_active sensor sensor temperature clock (5000000, unsampled)
          ≡ some (wait, d))
        × Ended d)
sample_active-Ended_example =
    sample_active-Ended sensor sensor temperature clock 5000000 unsampled (omega arith, omega arith)

abbrev context : Ctx
context = record { buf = some (replicate 50 0); buflen = 50; pos = 1 }

context-Ready : Ready (replicate 50 0) context
context-Ready = record { array = refl; fits = omega arith; within = omega arith }

readings-AllSmall : AllSmall (pos 21 ∷ negsuc 4 ∷ pos 300 ∷ [])
unfolding AllSmall
readings-AllSmall =
    ((omega arith, omega arith), ((omega arith, omega arith), ((omega arith, omega arith), tt)))

abbrev definition : MeasDef
definition = record { name = 84 ∷ 69 ∷ 77 ∷ 80 ∷ []; samplecount = 5 }

collect_64-get_measurement_example :
    (d : Data) × (s : Stats) × (collect_64 unsampled (pos 21 ∷ negsuc 4 ∷ pos 300 ∷ []) ≡ some d)
    × (d.value ≡ value_64 s)
    × (d.num_samples ≡ 3)
    × StatsOf s (pos 21) (negsuc 4 ∷ pos 300 ∷ [])
    × Arrives definition 3 s (first_stats (pos 0)) [] context
collect_64-get_measurement_example =
    collect_64-get_measurement (pos 21) (negsuc 4 ∷ pos 300 ∷ []) unsampled definition
      (replicate 50 0) context (first_stats (pos 0)) [] refl (omega arith) readings-AllSmall
      (λ e. absurd (omega (arith, e))) context-Ready (omega arith)

statistics :
    collect_64 unsampled (pos 21 ∷ negsuc 4 ∷ pos 300 ∷ [])
    ≡ some (record unsampled {
      value = value_64 (record { sum = pos 316; max = pos 300; min = negsuc 4 });
      num_samples = 3;
    })
unfolding collect_64 sample_proc_i64 more_stats stats_64 ◌+ℤ◌
statistics = refl

-- A value read as what it was not written as is zero here.
abbrev zeros : Raw
zeros = record {
  raw_64 = λ v. first_stats (pos 0);
  raw_f = λ v. first_stats (pos 0);
  raw_s = λ v. [];
}

-- Measurements with a sample, the second of them due every second time only.
abbrev entry : ℕ → Entry
entry interval = record {
  def = record temperature { interval = interval };
  samples = record unsampled { value = value_64 (first_stats (pos 21)); num_samples = 1 };
  has_sent = false;
}

abbrev sender : Sender
sender = record {
  entries = entry 1 ∷ entry 2 ∷ entry 1 ∷ entry 1 ∷ [];
  chunk_start_pos = 0;
  chunk_prev_start_pos = 0;
  pending_send = false;
}

-- Payloads of 25 bytes have room for two measurements of 11.
sender-AllSendable : AllSendable zeros 25 (waiting 3 sender.entries)
unfolding waiting AllSendable is_known values int_bytes compressed_type width
sender-AllSendable = (refl, (omega arith), (refl, (omega arith), (refl, (omega arith), tt)))

transmit-entry_bytes_example :
    (payloads : List Ctx) × (s : Sender) × (transmit
        (append_entry zeros)
        3
        (protocol_init 25).1
        5
        sender
      ≡ some (payloads, s))
    × (all_held body_of payloads ≡ all_bytes (entry_bytes zeros) (waiting 3 sender.entries))
    × (s.entries ≡ all_passed 3 sender.entries)
    × (s.pending_send ≡ false)
transmit-entry_bytes_example =
    transmit-entry_bytes zeros 25 3 sender 5 (omega arith) (inl refl) refl sender-AllSendable
      (omega arith)

two_fragments :
    Option.map
      (λ r. map (λ c. c.pos) r.0)
      (transmit (append_entry zeros) 3 (protocol_init 25).1 5 sender)
    ≡ some (23 ∷ 12 ∷ [])
unfolding transmit go_on send_fragment after_queue queue_from append_entry append_measurement
    append_value_type_i64 append_data_type_i64 protocol_init append_i8 append_i16 append_i32
    compressed_type code append_as
two_fragments = refl
