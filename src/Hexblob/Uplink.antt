-- ===== src/Hexblob/Uplink.antt =====
-- The whole of a measurement, from osm_protocol_append_measurement to the receiver.
use osm_firmware_v.Base.{
  ℕ, ◌+◌, ◌%◌, ◌^◌, ◌≤◌, ◌<◌, ◌≡◌, refl, ap, ap₂, sym, ◌∙◌, Bool, true, false, List, [], ◌∷◌, ◌++◌,
  append_assoc, append-nil, some, arith, ◌==◌, length, take, drop, length-take,
}
use osm_firmware_v.Hexblob.{
  Ctx, ValueType, i64, f32, string, invalid, other, Sampled, MeasDef, name_word, datatype,
  append_measurement,
}
use osm_firmware_v.Hexblob.Append.{Ready, as_bytes, as_bytes-append}
use osm_firmware_v.Hexblob.Encode.{le_bytes}
use osm_firmware_v.Hexblob.Decode.{Received, get_word, get_values, get_measured, get_measurement}
use osm_firmware_v.Hexblob.Integers.{get_word-le_bytes}
use osm_firmware_v.Hexblob.Measurement.{
  header_bytes, values, is_known, averages, measurement_bytes, Settled, append_measurement-Settled,
}
use osm_firmware_v.Hexblob.Reception.{
  as_bytes-le_bytes, get_values-values, drop-append, InRange, is_countable, meant, count,
}

name_word-small : (s : List ℕ) → name_word s < 256 ^ 4
name_word-small s = omega arith

get_measured-values :
    (w : ℕ) (single : Bool) (bs rest : List ℕ) (vs : List Received)
    → get_values (count single) bs ≡ some (vs, rest)
    → get_measured w (datatype single ∷ bs) ≡ some ((w, vs), rest)
unfolding get_measured count
get_measured-values w true bs rest vs e = rw (e, get_measured) refl
get_measured-values w false bs rest vs e = rw (e, get_measured) refl

get_measurement_word :
    (bs rest : List ℕ) (w : ℕ)
    → get_word 4 bs ≡ some (w, rest)
    → get_measurement bs ≡ get_measured w rest
unfolding get_measurement
get_measurement_word bs rest w e = rw (e, get_measurement) refl

datatype-byte : (single : Bool) → datatype single % 256 ≡ datatype single
datatype-byte true = refl
datatype-byte false = refl

as_bytes-header :
    (name : List ℕ) (single : Bool) → as_bytes (header_bytes name single) ≡ header_bytes name single
as_bytes-header name single =
    as_bytes-append (le_bytes 4 (name_word name)) (datatype single ∷ [])
    ∙ ap₂ (λ a b. a ++ (b ∷ [])) (as_bytes-le_bytes 4 (name_word name)) (datatype-byte single)

-- The receiver of a measurement's bytes has the name's word and the values meant, and what follows.
pub get_measurement-measurement_bytes :
    (def : MeasDef) (d : Sampled) (rest : List ℕ)
    → is_countable d.value_type (def.samplecount == 1) ≡ true
    → InRange d.value_type d
    → get_measurement (as_bytes (measurement_bytes def d) ++ rest)
      ≡ some ((name_word def.name, meant d.value_type d (def.samplecount == 1)), rest)
get_measurement-measurement_bytes def d rest k h =
    let single = def.samplecount == 1 in
    let vs = as_bytes (values d.value_type d single) in
    ap (λ bs. get_measurement (bs ++ rest))
      (as_bytes-append (header_bytes def.name single) (values d.value_type d single)
        ∙ ap (λ bs. bs ++ vs) (as_bytes-header def.name single))
    ∙ ap get_measurement (append_assoc (header_bytes def.name single) vs rest)
    ∙ get_measurement_word (le_bytes 4 (name_word def.name) ++ (datatype single ∷ (vs ++ rest)))
        (datatype single ∷ (vs ++ rest)) (name_word def.name)
        (get_word-le_bytes 4 (name_word def.name) (datatype single ∷ (vs ++ rest))
          (name_word-small def.name))
    ∙ get_measured-values (name_word def.name) single (vs ++ rest) rest
        (meant d.value_type d single) (get_values-values d.value_type d single rest k h)

sent_part :
    (b b' : List ℕ) (p p' : ℕ) (vs : List ℕ)
    → p ≤ length b
    → take p' b' ≡ take p b ++ as_bytes vs
    → drop p (take p' b') ≡ as_bytes vs
sent_part b b' p p' vs h e =
    ap (drop p) e ∙ drop-append p (take p b) (as_bytes vs) (omega (arith, length-take p b))

countable-known : (t : ValueType) (single : Bool) → is_countable t single ≡ true → is_known t ≡ true
unfolding is_countable is_known
countable-known i64 single h = refl
countable-known f32 single h = refl
countable-known string single h = refl
countable-known invalid single h = cc
countable-known (other n) single h = cc

received :
    (def : MeasDef) (d : Sampled) (b : List ℕ) (c : Ctx) (known : Bool) (done : Bool) (c' : Ctx)
    → known ≡ true
    → c.pos ≤ length b
    → c.pos + length (measurement_bytes def d) ≤ c.buflen
    → is_countable d.value_type (def.samplecount == 1) ≡ true
    → InRange d.value_type d
    → Settled b c (measurement_bytes def d) known (done, c')
    → (b' : List ℕ) × (done ≡ true)
      × (c'.buf ≡ some b')
      × (get_measurement (drop c.pos (take c'.pos b'))
          ≡ some ((name_word def.name, meant d.value_type d (def.samplecount == 1)), []))
received def d b c known false c' is_known within room k h (b', ready, len, same, all, at, bytes) =
    absurd (ground arith)
received def d b c known true c' is_known within room k h (b', ready, len, same, all, at, bytes) = (
  b',
  refl,
  ready.array,
  ap get_measurement (
        sent_part b b' c.pos c'.pos (measurement_bytes def d) within bytes
        ∙ sym (append-nil (as_bytes (measurement_bytes def d))))
      ∙ get_measurement-measurement_bytes def d [] k h,
)

-- A measurement of numbers in the range of their C types, or of one string, with room for its
-- bytes and, if a mean is asked for, at least one sample: osm_protocol_append_measurement returns
-- true, and a receiver that decodes the bytes appended has the name's word and, in this order,
-- the value, or the mean, the minimum and the maximum, and nothing more.
pub append_measurement-get_measurement :
    (def : MeasDef) (d : Sampled) (b : List ℕ) (c : Ctx)
    → Ready b c
    → averages d.value_type d (def.samplecount == 1) ≡ true
    → is_countable d.value_type (def.samplecount == 1) ≡ true
    → InRange d.value_type d
    → c.pos + length (measurement_bytes def d) ≤ c.buflen
    → (c' : Ctx) × (b' : List ℕ) × (append_measurement def d c ≡ some (true, c'))
      × (c'.buf ≡ some b')
      × (get_measurement (drop c.pos (take c'.pos b'))
          ≡ some ((name_word def.name, meant d.value_type d (def.samplecount == 1)), []))
append_measurement-get_measurement def d b c r a k h room =
    let ((done, c'), e, settled) = append_measurement-Settled def d b c r a in
    let (b', returned, array, values) =
      received def d b c (is_known d.value_type) done c'
        (countable-known d.value_type (def.samplecount == 1) k) (omega (arith, r.within, r.fits))
        room k h settled in
    (c', b', e ∙ ap (λ x. some (x, c')) returned, array, values)
