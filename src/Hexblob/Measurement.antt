-- ===== src/Hexblob/Measurement.antt =====
-- protocols/hexblob.c: osm_protocol_append_measurement on an array.
use osm_firmware_v.Base.{
  ℕ, ◌+◌, ◌≤◌, ◌≡◌, refl, sym, ◌∙◌, subst, inl, inr, Bool, true, false, not, ◌&&◌, ◌||◌, List, [],
  ◌∷◌, ◌++◌, append-nil, some, arith, leb, ◌==◌, if◌then◌else◌, length, take, Bool-cases,
}
use osm_firmware_v.Base.Ints.{ℤ}
use osm_firmware_v.Hexblob.{
  Ctx, Appender, and_also, append_i8, append_i32, append_data_type_i64, append_data_type_float,
  append_data_type_str, append_value_type_i64, append_value_type_float, append_value_type_str,
  ValueType, invalid, i64, string, f32, other, Sampled, Stats, MeasDef, div_trunc, name_word,
  datatype, append_value, settle, append_measurement,
}
use osm_firmware_v.Hexblob.Append.{
  append_each, append_each_one, Ready, as_bytes, Appended, append_each-Appended, also-Appended,
}
use osm_firmware_v.Hexblob.Encode.{
  le_bytes, append_i32-each, int_bytes, float_bytes, str_bytes, append_data_type_i64-each,
  append_data_type_float-each, append_data_type_str-each,
}

-- A name, and whether one value follows or three.
abbrev pub header_bytes : List ℕ → Bool → List ℕ
header_bytes name single = le_bytes 4 (name_word name) ++ (datatype single ∷ [])

-- The mean, the minimum and the maximum.
abbrev pub three : (ℤ → List ℕ) → Stats → ℕ → List ℕ
three enc s n = enc (div_trunc s.sum n) ++ (enc s.min ++ enc s.max)

unfoldable pub values : ValueType → Sampled → Bool → List ℕ
values i64 d single =
    if single then int_bytes d.value_64.sum else three int_bytes d.value_64 d.num_samples
values f32 d single =
    if single then float_bytes d.value_f.sum else three float_bytes d.value_f d.num_samples
values string d single = str_bytes d.value_s
values _ d single = []

unfoldable pub is_known : ValueType → Bool
is_known invalid = false
is_known (other n) = false
is_known _ = true

-- No mean of no samples is asked for.
unfoldable pub averages : ValueType → Sampled → Bool → Bool
averages i64 d single = single || not (d.num_samples == 0)
averages f32 d single = single || not (d.num_samples == 0)
averages _ d single = true

abbrev pub measurement_bytes : MeasDef → Sampled → List ℕ
measurement_bytes def d =
    header_bytes def.name (def.samplecount == 1) ++ values d.value_type d (def.samplecount == 1)

-- `done`, with exactly these bytes appended, or not `done` and the position where it was; in both
-- cases what stood before it stands.
abbrev pub Settled : List ℕ → Ctx → List ℕ → Bool → Bool × Ctx → Type 0
Settled b c vs known (done, c') =
    (b' : List ℕ) × Ready b' c'
    × (c'.buflen ≡ c.buflen)
    × (length b' ≡ length b)
    × (done ≡ (known && leb (c.pos + length vs) c.buflen))
    × (c'.pos ≡ (if done then c.pos + length vs else c.pos))
    × (take c'.pos b' ≡ take c.pos b ++ (if done then as_bytes vs else []))

-- An append that writes a list of bytes.
each-Appended :
    (m : Appender) (vs : List ℕ)
    → ((c : Ctx) → m c ≡ append_each vs c)
    → (b : List ℕ) (c : Ctx) → Ready b c
    → Appended b c vs (m c)
each-Appended m vs e b c r = subst (Appended b c vs) (sym (e c)) (append_each-Appended vs b c r)

three-Appended :
    (put : ℤ → Appender) (enc : ℤ → List ℕ)
    → ((v : ℤ) (c : Ctx) → put v c ≡ append_each (enc v) c)
    → (x y z : ℤ) (b : List ℕ) (c : Ctx) → Ready b c
    → Appended b c (enc x ++ (enc y ++ enc z)) (and_also (put x) (and_also (put y) (put z)) c)
three-Appended put enc e x y z b c r =
    also-Appended (put x) (and_also (put y) (put z)) (enc x) (enc y ++ enc z) b c
      (each-Appended (put x) (enc x) (e x) b c r)
      (λ b' c' r'.
        also-Appended (put y) (put z) (enc y) (enc z) b' c'
          (each-Appended (put y) (enc y) (e y) b' c' r')
          (λ b'' c'' r''. each-Appended (put z) (enc z) (e z) b'' c'' r''))

header : List ℕ → Bool → Appender
header name single = and_also (append_i32 (name_word name)) (append_i8 (datatype single))

header-Appended :
    (name : List ℕ) (single : Bool) (b : List ℕ) (c : Ctx)
    → Ready b c
    → Appended b c (header_bytes name single) (header name single c)
unfolding header
header-Appended name single b c r =
    also-Appended (append_i32 (name_word name)) (append_i8 (datatype single))
      (le_bytes 4 (name_word name)) (datatype single ∷ []) b c
      (each-Appended (append_i32 (name_word name)) (le_bytes 4 (name_word name))
        (append_i32-each (name_word name)) b c r)
      (each-Appended (append_i8 (datatype single)) (datatype single ∷ [])
        (λ d. sym (append_each_one (datatype single) d)))

-- The values that are appended when their type is known.
value_appender : ValueType → Sampled → Bool → Appender
value_appender i64 d single =
    if single
    then append_data_type_i64 d.value_64.sum
    else and_also (append_data_type_i64 (div_trunc d.value_64.sum d.num_samples))
        (and_also (append_data_type_i64 d.value_64.min) (append_data_type_i64 d.value_64.max))
value_appender f32 d single =
    if single
    then append_data_type_float d.value_f.sum
    else and_also (append_data_type_float (div_trunc d.value_f.sum d.num_samples))
        (and_also (append_data_type_float d.value_f.min) (append_data_type_float d.value_f.max))
value_appender string d single = append_data_type_str d.value_s
value_appender _ d single = λ c. (false, c)

append_value_lem :
    (t : ValueType) (d : Sampled) (single : Bool) (c : Ctx)
    → averages t d single ≡ true
    → append_value t d single c ≡ some (value_appender t d single c)
unfolding append_value value_appender averages append_value_type_i64 append_value_type_float
    append_value_type_str
append_value_lem i64 d true c h = refl
append_value_lem i64 d false c h = ground arith
append_value_lem f32 d true c h = refl
append_value_lem f32 d false c h = ground arith
append_value_lem string d single c h = refl
append_value_lem invalid d single c h = refl
append_value_lem (other n) d single c h = refl

value-Appended :
    (t : ValueType) (d : Sampled) (single : Bool)
    → is_known t ≡ true
    → (b : List ℕ) (c : Ctx) → Ready b c
    → Appended b c (values t d single) (value_appender t d single c)
unfolding value_appender values is_known
value-Appended i64 d true k b c r =
    each-Appended (append_data_type_i64 d.value_64.sum) (int_bytes d.value_64.sum)
      (append_data_type_i64-each d.value_64.sum) b c r
value-Appended i64 d false k b c r =
    three-Appended append_data_type_i64 int_bytes append_data_type_i64-each
      (div_trunc d.value_64.sum d.num_samples) d.value_64.min d.value_64.max b c r
value-Appended f32 d true k b c r =
    each-Appended (append_data_type_float d.value_f.sum) (float_bytes d.value_f.sum)
      (append_data_type_float-each d.value_f.sum) b c r
value-Appended f32 d false k b c r =
    three-Appended append_data_type_float float_bytes append_data_type_float-each
      (div_trunc d.value_f.sum d.num_samples) d.value_f.min d.value_f.max b c r
value-Appended string d single k b c r =
    each-Appended (append_data_type_str d.value_s) (str_bytes d.value_s)
      (append_data_type_str-each d.value_s) b c r
value-Appended invalid d single k b c r = cc
value-Appended (other n) d single k b c r = cc

-- What the last lines of the function do to two appends in a row.
abbrev rewound : ℕ → Bool × Ctx → Bool × Ctx
rewound before (done, c) = if done then (true, c) else (false, record c { pos = before })

rewound-Settled :
    (b : List ℕ) (c : Ctx) (vs : List ℕ) (done : Bool) (c' : Ctx)
    → Appended b c vs (done, c')
    → c.pos ≤ c.buflen
    → Settled b c vs true (rewound c.pos (done, c'))
rewound-Settled b c vs false c' (b', ready, len, same, all, on, kept, grown) h = (
  b',
  record { array = ready.array; fits = ready.fits; within = omega (arith, len) },
  len,
  same,
  all,
  refl,
  kept ∙ sym (append-nil (take c.pos b)),
)
rewound-Settled b c vs true c' (b', ready, len, same, all, on, kept, inl full) h = cc
rewound-Settled b c vs true c' (b', ready, len, same, all, on, kept, inr (at, bytes)) h =
    (b', ready, len, same, all, at, bytes)

refused-Settled :
    (b : List ℕ) (c : Ctx) (xs vs : List ℕ) (done : Bool) (c' : Ctx)
    → Appended b c xs (done, c')
    → c.pos ≤ c.buflen
    → Settled b c vs false (false, record c' { pos = c.pos })
refused-Settled b c xs vs done c' (b', ready, len, same, all, on, kept, grown) h = (
  b',
  record { array = ready.array; fits = ready.fits; within = omega (arith, len) },
  len,
  same,
  refl,
  refl,
  kept ∙ sym (append-nil (take c.pos b)),
)

refused_also :
    (b : List ℕ) (c : Ctx) (xs vs : List ℕ) (res : Bool × Ctx)
    → Appended b c xs res
    → c.pos ≤ c.buflen
    → Settled b c vs false (rewound c.pos (res.0 && false, res.1))
refused_also b c xs vs (false, c') a h = refused-Settled b c xs vs false c' a h
refused_also b c xs vs (true, c') a h = refused-Settled b c xs vs true c' a h

append_measurement-rewound :
    (def : MeasDef) (d : Sampled) (c : Ctx)
    → averages d.value_type d (def.samplecount == 1) ≡ true
    → append_measurement def d c
      ≡ some (
          rewound c.pos (
            and_also
              (header def.name (def.samplecount == 1))
              (value_appender d.value_type d (def.samplecount == 1))
              c))
unfolding append_measurement settle header
append_measurement-rewound def d c h =
    rw
      (append_value_lem d.value_type d (def.samplecount == 1)
        (header def.name (def.samplecount == 1) c).1 h)
      refl

unknown-refused :
    (t : ValueType) (d : Sampled) (single : Bool) (c : Ctx)
    → is_known t ≡ false
    → value_appender t d single c ≡ (false, c)
unfolding value_appender is_known
unknown-refused invalid d single c h = refl
unknown-refused (other n) d single c h = refl
unknown-refused i64 d single c h = cc
unknown-refused f32 d single c h = cc
unknown-refused string d single c h = cc

settled :
    (name : List ℕ) (single : Bool) (t : ValueType) (d : Sampled) (b : List ℕ) (c : Ctx)
    → Ready b c
    → Settled b c
        (header_bytes name single ++ values t d single)
        (is_known t)
        (rewound c.pos (and_also (header name single) (value_appender t d single) c))
settled name single t d b c r = elim (Bool-cases (is_known t)) [
  | inl k ↦ rw k (
      rewound-Settled b c (header_bytes name single ++ values t d single) _ _
        (also-Appended (header name single) (value_appender t d single) (header_bytes name single)
          (values t d single) b c (header-Appended name single b c r) (value-Appended t d single k))
        r.within)
  | inr k ↦
      rw (k, unknown-refused t d single (header name single c).1 k)
        (refused_also b c (header_bytes name single) (header_bytes name single ++ values t d single)
          (header name single c) (header-Appended name single b c r) r.within)
]

-- For a measurement whose mean, if one is asked for, is of at least one sample,
-- osm_protocol_append_measurement returns; it returns true exactly if the value type is known and
-- the array has room for all the bytes, and then these bytes follow what the array held; else the
-- position is put back and the array holds before it what it held.
pub append_measurement-Settled :
    (def : MeasDef) (d : Sampled) (b : List ℕ) (c : Ctx)
    → Ready b c
    → averages d.value_type d (def.samplecount == 1) ≡ true
    → (res : Bool × Ctx) × (append_measurement def d c ≡ some res)
      × Settled b c (measurement_bytes def d) (is_known d.value_type) res
append_measurement-Settled def d b c r h = (
  rewound c.pos (
      and_also (header def.name (def.samplecount == 1))
        (value_appender d.value_type d (def.samplecount == 1)) c),
  append_measurement-rewound def d c h,
  settled def.name (def.samplecount == 1) d.value_type d b c r,
)
