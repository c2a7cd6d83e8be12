-- ===== src/Hexblob/Error.antt =====
-- The error report of protocols/hexblob.c.
use osm_firmware_v.Base.{
  ℕ, ◌<◌, ◌≡◌, ap, inl, inr, ◌==◌, List, [], ◌∷◌, some, arith, Bool-cases, if◌then◌else◌,
}
use osm_firmware_v.Base.Ints.{pos}
use osm_firmware_v.Hexblob.{
  Ctx, append_i8, append_i16, append_i32, append_as, append_data_type_i64, compressed_type, code,
  int8, uint8, append_error_code, protocol_init, send_error_code,
}

error_type : (err : ℕ) → err < 256 → compressed_type (pos err) ≡ (if err == 0 then int8 else uint8)
unfolding compressed_type
error_type err h = ground arith

-- The report as it is sent.
abbrev pub report : ℕ → ℕ → List ℕ
report type err = 2 ∷ 69 ∷ 82 ∷ 82 ∷ 0 ∷ 1 ∷ type ∷ err ∷ 0 ∷ 0 ∷ 0 ∷ 0 ∷ 0 ∷ 0 ∷ 0 ∷ []

-- For an error code below 256, osm_protocol_send_error_code sends eight bytes: the version, the
-- name "ERR", the mark of a single value, the type and the code; and the context that was being
-- filled is as it was.
pub send_error_code_lem :
    (err : ℕ) (org : Ctx)
    → err < 256
    → send_error_code err org ≡ (some (some (report (if err == 0 then 0x11 else 0x01) err), 8), org)
unfolding send_error_code protocol_init append_error_code append_i8 append_i16 append_i32
    append_data_type_i64 append_as code
send_error_code_lem err org h = elim (Bool-cases (err == 0)) [
  | inl z ↦ rw (error_type err h, z) (ap (λ x. (some (some (report 0x11 x), 8), org)) (omega arith))
  | inr z ↦ rw (error_type err h, z) (ap (λ x. (some (some (report 0x01 x), 8), org)) (omega arith))
]
