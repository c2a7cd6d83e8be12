-- ===== src/Hexblob/Float.antt =====
-- protocols/hexblob.c: a float in the array, and the receiver that reads it there.
use osm_firmware_v.Base.{
  ℕ, ◌+◌, ◌≤◌, ◌≡◌, ap, sym, ◌∙◌, inl, inr, Bool, true, List, [], some, append-nil, arith,
  length-take, take, drop,
}
use osm_firmware_v.Base.Ints.{ℤ}
use osm_firmware_v.Hexblob.{Ctx, append_data_type_float}
use osm_firmware_v.Hexblob.Append.{Ready, Appended, append_each, append_each-Appended}
use osm_firmware_v.Hexblob.Encode.{float_bytes, append_data_type_float-each}
use osm_firmware_v.Hexblob.Decode.{thousandths, get_value}
use osm_firmware_v.Hexblob.Reception.{
  IsInt32, get_value-float_bytes, as_bytes-float_bytes, drop-append,
}

-- What is there to be read between two positions.
abbrev pub between : ℕ → ℕ → List ℕ → List ℕ
between from to b = drop from (take to b)

-- A float was appended: the array, and the receiver's reading of what is new in it.
abbrev pub Readable : List ℕ → Ctx → ℤ → Bool × Ctx → Type 0
Readable b c v (done, c') =
    (b' : List ℕ) × (done ≡ true)
    × (c'.buf ≡ some b')
    × (c'.pos ≡ c.pos + 5)
    × (take c.pos b' ≡ take c.pos b)
    × (get_value (between c.pos c'.pos b') ≡ some (thousandths v, []))

Readable-float_bytes :
    (b : List ℕ) (c : Ctx) (v : ℤ) (res : Bool × Ctx)
    → Ready b c
    → c.pos + 5 ≤ c.buflen
    → IsInt32 v
    → Appended b c (float_bytes v) res
    → Readable b c v res
unfolding float_bytes
Readable-float_bytes b c v (done, c') r room h (b', ready, len, same, all, on, kept, grown) =
    let good : done ≡ true = ground (arith, all) in
    elim grown [
      | inl bad ↦ absurd (ground (arith, good, bad))
      | inr (at, bytes) ↦ (
        b',
        good,
        ready.array,
        at,
        kept,
        ap get_value (
              ap (drop c.pos) bytes
              ∙ drop-append c.pos (take c.pos b) _
                  (omega (arith, length-take c.pos b, r.fits, r.within))
              ∙ as_bytes-float_bytes v
              ∙ sym (append-nil (float_bytes v)))
            ∙ get_value-float_bytes v [] h,
      )
    ]

-- In a context with its array in place and five bytes of room, _protocol_append_data_type_float,
-- given a count of thousandths in the range of int32_t, returns true and moves the position by
-- five; what stood before stands, and a receiver reads the new bytes as that count, with nothing
-- left.
pub append_data_type_float-get_value :
    (v : ℤ) (b : List ℕ) (c : Ctx)
    → Ready b c
    → c.pos + 5 ≤ c.buflen
    → IsInt32 v
    → Readable b c v (append_data_type_float v c)
append_data_type_float-get_value v b c r room h = rw (append_data_type_float-each v c) (
    Readable-float_bytes b c v (append_each (float_bytes v) c) r room h
      (append_each-Appended (float_bytes v) b c r))
