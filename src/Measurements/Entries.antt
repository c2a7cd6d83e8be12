-- ===== src/Measurements/Entries.antt =====
-- core/measurements.c with protocols/hexblob.c as its protocol module: a measurement of the table in
-- the payload.
use osm_firmware_v.Base.{
  ℕ, ◌<◌, ◌≡◌, refl, ap, sym, ◌∙◌, subst, arith, Bool, true, false, List, [], ◌∷◌, ◌++◌, append-nil,
  Option, none, some, ◌==◌, if◌then◌else◌, length, length-take, take, drop,
}
use osm_firmware_v.Hexblob.{
  Ctx, Stats, ValueType, i64, f32, string, invalid, other, Sampled, MeasDef, append_measurement,
}
use osm_firmware_v.Hexblob.Append.{Ready, as_bytes}
use osm_firmware_v.Hexblob.Measurement.{
  measurement_bytes, averages, is_known, Settled, append_measurement-Settled,
}
use osm_firmware_v.Measurements.{Value, value_64, value_f, value_s}
use osm_firmware_v.Measurements.Send.{Entry}
use osm_firmware_v.Measurements.Fragments.{IsPayload}

-- What the members of the union read as when another was written last.
pub record Raw : Type 0 where
  pub raw_64 : Value → Stats
  pub raw_f : Value → Stats
  pub raw_s : Value → List ℕ

abbrev pub member_64 : Raw → Value → Stats
member_64 raw (value_64 s) = s
member_64 raw v = raw.raw_64 v

abbrev pub member_f : Raw → Value → Stats
member_f raw (value_f s) = s
member_f raw v = raw.raw_f v

abbrev pub member_s : Raw → Value → List ℕ
member_s raw (value_s s) = s
member_s raw v = raw.raw_s v

abbrev pub as_def : Entry → MeasDef
as_def e = record { name = e.def.name; samplecount = e.def.samplecount }

abbrev pub as_sampled : Raw → Entry → Sampled
as_sampled raw e = record {
  value_type = e.samples.value_type;
  num_samples = e.samples.num_samples;
  value_64 = member_64 raw e.samples.value;
  value_f = member_f raw e.samples.value;
  value_s = member_s raw e.samples.value;
}

or_refused : Ctx → Option (Bool × Ctx) → Bool × Ctx
or_refused c none = (false, c)
or_refused c (some r) = r

-- `osm_protocol_append_measurement(def, data)`. There is no result only where a mean of no samples
-- is asked for, and the loop passes over data without samples.
unfoldable pub append_entry : Raw → Entry → Ctx → Bool × Ctx
unfolding or_refused
append_entry raw e c = or_refused c (append_measurement (as_def e) (as_sampled raw e) c)

-- The bytes of a measurement in the payload.
abbrev pub entry_bytes : Raw → Entry → List ℕ
entry_bytes raw e = as_bytes (measurement_bytes (as_def e) (as_sampled raw e))

prefix : ℕ → Option (List ℕ) → List ℕ
prefix n none = []
prefix n (some b) = take n b

-- What a payload holds behind its version.
unfoldable pub body_of : Ctx → List ℕ
unfolding prefix
body_of c = drop 1 (prefix c.pos c.buf)

abbrev pub Begun : Ctx → Type 0
Begun c = (b : List ℕ) × Ready b c × (0 < c.pos)

averages_sampled :
    (t : ValueType) (d : Sampled) (single : Bool)
    → (d.num_samples == 0) ≡ false
    → averages t d single ≡ true
unfolding averages
averages_sampled i64 d single e = ground (arith, e)
averages_sampled f32 d single e = ground (arith, e)
averages_sampled string d single e = refl
averages_sampled invalid d single e = refl
averages_sampled (other n) d single e = refl

pub append_entry-Settled :
    (raw : Raw) (e : Entry) (b : List ℕ) (c : Ctx)
    → Ready b c
    → (e.samples.num_samples == 0) ≡ false
    → Settled b c
        (measurement_bytes (as_def e) (as_sampled raw e))
        (is_known e.samples.value_type)
        (append_entry raw e c)
unfolding append_entry
append_entry-Settled raw e b c r sampled =
    let (res, done, settled) =
      append_measurement-Settled (as_def e) (as_sampled raw e) b c r (
        averages_sampled e.samples.value_type (as_sampled raw e) (e.def.samplecount == 1)
          sampled) in
    subst
      (λ o.
        Settled b c (measurement_bytes (as_def e) (as_sampled raw e))
          (is_known e.samples.value_type) (or_refused c o))
      (sym done) settled

drop_one : (xs ys : List ℕ) → 0 < length xs → drop 1 (xs ++ ys) ≡ drop 1 xs ++ ys
drop_one [] ys h = absurd (omega arith)
drop_one (x ∷ xs) ys h = refl

pub body_of-take : (b : List ℕ) (c : Ctx) → Ready b c → body_of c ≡ drop 1 (take c.pos b)
unfolding body_of
body_of-take b c r = ap (λ o. drop 1 (prefix c.pos o)) r.array

-- Settled, the body has grown by the bytes, or by nothing.
body_of-Settled :
    (b : List ℕ) (c : Ctx) (vs : List ℕ) (known : Bool) (res : Bool × Ctx)
    → Ready b c
    → 0 < c.pos
    → Settled b c vs known res
    → body_of res.1 ≡ body_of c ++ (if res.0 then as_bytes vs else [])
body_of-Settled b c vs known (done, c') r begun (b', ready, len, same, fits, at, bytes) =
    body_of-take b' c' ready
    ∙ ap (drop 1) bytes
    ∙ drop_one (take c.pos b) (if done then as_bytes vs else [])
        (omega (arith, length-take c.pos b, r.fits, r.within))
    ∙ ap (λ xs. xs ++ (if done then as_bytes vs else [])) (sym (body_of-take b c r))

Begun-Settled :
    (b : List ℕ) (c : Ctx) (vs : List ℕ) (known : Bool) (res : Bool × Ctx)
    → 0 < c.pos
    → Settled b c vs known res
    → Begun res.1
Begun-Settled b c vs known (done, c') begun (b', ready, len, same, fits, at, bytes) =
    (b', ready, ground (arith, begun, at))

pub append_entry-IsPayload :
    (raw : Raw) → IsPayload (append_entry raw) (entry_bytes raw) body_of Begun
append_entry-IsPayload raw = record {
  taken = λ e c (b, r, begun) sampled ok.
      body_of-Settled b c (measurement_bytes (as_def e) (as_sampled raw e))
        (is_known e.samples.value_type) (append_entry raw e c) r begun
        (append_entry-Settled raw e b c r sampled)
      ∙ ap (λ done. body_of c ++ (if done then entry_bytes raw e else [])) ok;
  refused = λ e c (b, r, begun) sampled no_room.
      body_of-Settled b c (measurement_bytes (as_def e) (as_sampled raw e))
        (is_known e.samples.value_type) (append_entry raw e c) r begun
        (append_entry-Settled raw e b c r sampled)
      ∙ ap (λ done. body_of c ++ (if done then entry_bytes raw e else [])) no_room
      ∙ append-nil (body_of c);
  good = λ e c (b, r, begun) sampled.
      Begun-Settled b c (measurement_bytes (as_def e) (as_sampled raw e))
        (is_known e.samples.value_type) (append_entry raw e c) begun
        (append_entry-Settled raw e b c r sampled);
}
