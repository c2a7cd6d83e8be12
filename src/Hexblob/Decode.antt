-- ===== src/Hexblob/Decode.antt =====
-- The receiver of the payload, written from docs/protocols/lorawan_protocols.md: a version byte,
-- then for each measurement a name, a data type and typed values.
use osm_firmware_v.Base.{
  ℕ, zero, suc, ◌+◌, ◌*◌, ◌^◌, List, [], ◌∷◌, Option, none, some, ◌==◌, leb, if◌then◌else◌, length,
  take, drop,
}
use osm_firmware_v.Base.Ints.{ℤ, pos, signed}

-- A typed value as the receiver has it; a float is a count of thousandths.
pub data Received : Type 0 where
  number : ℤ → Received
  thousandths : ℤ → Received
  text : List ℕ → Received

-- A word of `k` bytes, the lowest first, and what follows it.
unfoldable pub get_word : ℕ → List ℕ → Option (ℕ × List ℕ)
get_word zero bs = some (0, bs)
get_word (suc k) [] = none
get_word (suc k) (b ∷ bs) = elim (get_word k bs) [
  | none ↦ none
  | some (w, rest) ↦ some (b + 256 * w, rest)
]

unfoldable pub get_unsigned : ℕ → List ℕ → Option (Received × List ℕ)
get_unsigned k bs = elim (get_word k bs) [
  | none ↦ none
  | some (w, rest) ↦ some (number (pos w), rest)
]

unfoldable pub get_signed : ℕ → List ℕ → Option (Received × List ℕ)
get_signed k bs = elim (get_word k bs) [
  | none ↦ none
  | some (w, rest) ↦ some (number (signed (2 ^ (8 * k)) w), rest)
]

unfoldable pub get_float : List ℕ → Option (Received × List ℕ)
get_float bs = elim (get_word 4 bs) [
  | none ↦ none
  | some (w, rest) ↦ some (thousandths (signed (2 ^ 32) w), rest)
]

unfoldable pub get_text : List ℕ → Option (Received × List ℕ)
get_text bs = if leb 8 (length bs) then some (text (take 8 bs), drop 8 bs) else none

-- The value types of the document's table, and strings.
unfoldable pub get_typed : ℕ → List ℕ → Option (Received × List ℕ)
get_typed t bs =
    if t == 0x01
    then get_unsigned 1 bs
    else (if t == 0x02
        then get_unsigned 2 bs
        else (if t == 0x03
            then get_unsigned 4 bs
            else (if t == 0x04
                then get_unsigned 8 bs
                else (if t == 0x11
                    then get_signed 1 bs
                    else (if t == 0x12
                        then get_signed 2 bs
                        else (if t == 0x13
                            then get_signed 4 bs
                            else (if t == 0x14
                                then get_signed 8 bs
                                else (if t == 0x15
                                    then get_float bs
                                    else (if t == 0x20 then get_text bs else none)))))))))

unfoldable pub get_value : List ℕ → Option (Received × List ℕ)
unfolding get_typed
get_value [] = none
get_value (t ∷ bs) = get_typed t bs

-- `n` values in a row.
unfoldable pub get_values : ℕ → List ℕ → Option (List Received × List ℕ)
get_values zero bs = some ([], bs)
get_values (suc n) bs = elim (get_value bs) [
  | none ↦ none
  | some (v, bs') ↦ elim (get_values n bs') [ none ↦ none | some (vs, rest) ↦ some (v ∷ vs, rest) ]
]

-- A measurement: the name's four bytes as a word, and one value or three.
unfoldable pub get_measured : ℕ → List ℕ → Option ((ℕ × List Received) × List ℕ)
get_measured name [] = none
get_measured name (t ∷ bs) =
    elim (if t == 1 then get_values 1 bs else (if t == 2 then get_values 3 bs else none)) [
      | none ↦ none
      | some (vs, rest) ↦ some ((name, vs), rest)
    ]

unfoldable pub get_measurement : List ℕ → Option ((ℕ × List Received) × List ℕ)
get_measurement bs = elim (get_word 4 bs) [
  | none ↦ none
  | some (name, rest) ↦ get_measured name rest
]
