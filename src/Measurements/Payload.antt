-- ===== src/Measurements/Payload.antt =====
-- core/measurements.c and protocols/hexblob.c together: readings, their statistics, the payload and
-- what a receiver makes of it.
use osm_firmware_v.Base.{
  ℕ, zero, suc, ◌+◌, ◌≤◌, ◌<◌, ◌≡◌, ◌≢◌, inl, inr, refl, ap, sym, ◌∙◌, subst, arith, true, false,
  List, [], ◌∷◌, ◌++◌, Option, some, ◌==◌, ne→==, length, length-append, take, drop,
}
use osm_firmware_v.Base.Ints.{ℤ, ◌+ℤ◌}
use osm_firmware_v.Hexblob.{
  Ctx, Stats, SendType, i64, Sampled, MeasDef, name_word, div_trunc, compressed_type,
  append_measurement,
}
use osm_firmware_v.Hexblob.Append.{Ready}
use osm_firmware_v.Hexblob.Encode.{le_bytes, width, int_bytes}
use osm_firmware_v.Hexblob.Decode.{Received, number, get_measurement}
use osm_firmware_v.Hexblob.Integers.{IsInt64}
use osm_firmware_v.Hexblob.Measurement.{values, measurement_bytes, averages}
use osm_firmware_v.Hexblob.Reception.{InRange, is_countable, meant}
use osm_firmware_v.Hexblob.Uplink.{append_measurement-get_measurement}
use osm_firmware_v.Measurements.{Data, value_64}
use osm_firmware_v.Measurements.Statistics.{
  collect_64, total, Among, Small, AllSmall, Within, Within-add, StatsOf, collect_64-StatsOf,
}

-- What the payload reads of the data of 64-bit samples, whatever the other members of the union read
-- as.
abbrev pub reads_as : ℕ → Stats → Stats → List ℕ → Sampled
reads_as n s f text = record {
  value_type = i64;
  num_samples = n;
  value_64 = s;
  value_f = f;
  value_s = text;
}

pub length-le_bytes : (n w : ℕ) → length (le_bytes n w) ≡ n
length-le_bytes zero w = refl
length-le_bytes (suc n) w = ap suc (length-le_bytes n _)

pub width-le : (t : SendType) → width t ≤ 8
unfolding width
width-le t = ground arith

pub length-int_bytes : (v : ℤ) → length (int_bytes v) ≤ 9
unfolding int_bytes
length-int_bytes v =
    omega (arith, width-le (compressed_type v), length-le_bytes (width (compressed_type v)) _)

pub Among-Small : (m : ℤ) (vs : List ℤ) → AllSmall vs → Among m vs → Small m
unfolding Among AllSmall
Among-Small m [] smalls never = absurd never
Among-Small m (v ∷ vs) (small, smalls) (inl e) = subst Small (sym e) small
Among-Small m (v ∷ vs) (small, smalls) (inr later) = Among-Small m vs smalls later

pub total-Within :
    (k : ℕ) (acc : ℤ) (vs : List ℤ)
    → Within k acc
    → AllSmall vs
    → Within (k + length vs) (total acc vs)
unfolding total AllSmall
total-Within k acc [] (p, m) smalls = (omega (arith, p), omega (arith, m))
total-Within k acc (v ∷ vs) within (small, smalls) =
    let (p, m) = total-Within (k + 1) (acc +ℤ v) vs (Within-add k acc v within small) smalls in
    (omega (arith, p), omega (arith, m))

pub Within-IsInt64 : (k : ℕ) (v : ℤ) → k < 128 → Within k v → IsInt64 v
Within-IsInt64 k v few (p, m) = (omega (arith, few, m), omega (arith, few, p))

-- At most 32 bytes: the name and the mark, and three integers.
pub length-measurement_bytes :
    (def : MeasDef) (n : ℕ) (s f : Stats) (text : List ℕ)
    → (def.samplecount == 1) ≡ false
    → length (measurement_bytes def (reads_as n s f text)) ≤ 32
unfolding values
length-measurement_bytes def n s f text averaged = rw (averaged) (
    omega (
      arith,
      length-int_bytes (div_trunc s.sum n),
      length-int_bytes s.min,
      length-int_bytes s.max,
      length-append (int_bytes (div_trunc s.sum n)) (int_bytes s.min ++ int_bytes s.max),
      length-append (int_bytes s.min) (int_bytes s.max),
    ))

-- The receiver's values.
abbrev pub Meant : MeasDef → ℕ → Stats → Option ((ℕ × List Received) × List ℕ) → Type 0
Meant def n s result =
    result
    ≡ some ((name_word def.name, number (div_trunc s.sum n) ∷ number s.min ∷ number s.max ∷ []), [])

-- The statistics of `n` samples arrive.
abbrev pub Arrives : MeasDef → ℕ → Stats → Stats → List ℕ → Ctx → Type 0
Arrives def n s f text c =
    (c' : Ctx) × (b' : List ℕ) × (append_measurement def (reads_as n s f text) c ≡ some (true, c'))
    × (c'.buf ≡ some b')
    × Meant def n s (get_measurement (drop c.pos (take c'.pos b')))

pub statistics-Arrives :
    (def : MeasDef) (n : ℕ) (s f : Stats) (text : List ℕ) (b : List ℕ) (c : Ctx)
    → n ≢ 0
    → IsInt64 s.sum
    → IsInt64 s.min
    → IsInt64 s.max
    → (def.samplecount == 1) ≡ false
    → Ready b c
    → c.pos + 32 ≤ c.buflen
    → Arrives def n s f text c
unfolding meant is_countable InRange averages
statistics-Arrives def n s f text b c some_samples sum least most averaged ready room =
    let d : Sampled = reads_as n s f text in
    let no_zero : (n == 0) ≡ false = ne→== n 0 some_samples in
    let (c', b', appended, array, received) =
      append_measurement-get_measurement def d b c ready (rw (averaged, no_zero) refl) refl
        (sum, least, most)
        (omega (arith, room, length-measurement_bytes def n s f text averaged)) in
    (
      c',
      b',
      appended,
      array,
      received ∙ ap (λ single. some ((name_word def.name, meant i64 d single), [])) averaged,
    )

-- From data without samples, at least one and fewer than 128 readings, each of at most 2^56
-- either way, are collected with a result; the sum is that of the readings in their order and
-- does not overflow, the maximum and the minimum are a greatest and a least reading; and for a
-- definition that averages and a context with 32 bytes of room osm_protocol_append_measurement
-- returns true, and a receiver that decodes the bytes has the name's word, the sum divided by the
-- number of readings, the minimum and the maximum, and nothing more.
pub collect_64-get_measurement :
    (v : ℤ) (vs : List ℤ) (d : Data) (def : MeasDef) (b : List ℕ) (c : Ctx) (f : Stats)
    (text : List ℕ)
    → d.num_samples ≡ 0
    → length (v ∷ vs) < 128
    → AllSmall (v ∷ vs)
    → def.samplecount ≢ 1
    → Ready b c
    → c.pos + 32 ≤ c.buflen
    → (d' : Data) × (s : Stats) × (collect_64 d (v ∷ vs) ≡ some d')
      × (d'.value ≡ value_64 s)
      × (d'.num_samples ≡ length (v ∷ vs))
      × StatsOf s v vs
      × Arrives def (length (v ∷ vs)) s f text c
unfolding AllSmall
collect_64-get_measurement v vs d def b c f text none_yet few (small, smalls) several ready room =
    let averaged : (def.samplecount == 1) ≡ false = ne→== def.samplecount 1 several in
    let (d', s, done, value, n, stats) = collect_64-StatsOf v vs d none_yet few (small, smalls) in
    let max_small : Small s.max = Among-Small s.max (v ∷ vs) (small, smalls) stats.max_among in
    let min_small : Small s.min = Among-Small s.min (v ∷ vs) (small, smalls) stats.min_among in
    let sum_within : Within (1 + length vs) (total v vs) =
      total-Within 1 v vs (omega (arith, small.0), omega (arith, small.1)) smalls in
    (
      d',
      s,
      done,
      value,
      n,
      stats,
      statistics-Arrives def (length (v ∷ vs)) s f text b c (λ e. absurd (omega (arith, e)))
          (subst IsInt64 (sym stats.sum)
            (Within-IsInt64 (1 + length vs) (total v vs) (omega (arith, few)) sum_within))
          (Within-IsInt64 1 s.min (omega arith)
            (omega (arith, min_small.0), omega (arith, min_small.1)))
          (Within-IsInt64 1 s.max (omega arith)
            (omega (arith, max_small.0), omega (arith, max_small.1)))
          averaged ready room,
    )
