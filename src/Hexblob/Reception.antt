-- ===== src/Hexblob/Reception.antt =====
-- protocols/hexblob.c: the values of a measurement, and the receiver that reads them.
use native.Mathlib.Nat.{mod-mod, div-le_self}
use osm_firmware_v.Base.{
  ℕ, zero, suc, ◌-◌, ◌*◌, ◌/◌, ◌%◌, ◌^◌, ◌≤◌, ◌≡◌, refl, ap, ap₂, ◌∙◌, Bool, true, false, List, [],
  ◌∷◌, ◌++◌, append_assoc, some, arith, leb, if◌then◌else◌, length, take, drop, length-take, min,
  length-append, length-replicate, replicate,
}
use osm_firmware_v.Base.Ints.{ℤ, pos, negsuc, word, signed, ◌≤ℤ◌}
use osm_firmware_v.Hexblob.{
  SendType, uint8, uint16, uint32, uint64, int8, int16, int32, int64, float, str, code,
  compressed_type, ValueType, i64, f32, string, invalid, other, Sampled, div_trunc, value_str_len,
  send_str_len,
}
use osm_firmware_v.Base.Strings.{strnlen, strnlen-le}
use osm_firmware_v.Hexblob.Append.{as_bytes, as_bytes-append}
use osm_firmware_v.Hexblob.Encode.{le_bytes, width, int_bytes, float_bytes, str_bytes, str_field}
use osm_firmware_v.Hexblob.Decode.{
  Received, number, thousandths, text, get_word, get_float, get_text, get_typed, get_value,
  get_values,
}
use osm_firmware_v.Hexblob.Integers.{
  IsInt64, get_word-le_bytes, get_value-int_bytes, signed-word, in_signed,
}
use osm_firmware_v.Hexblob.Measurement.{values}

-- The range of `int32_t`, in which a float's thousandths are kept.
abbrev pub IsInt32 : ℤ → Type 0
IsInt32 v = (negsuc (2 ^ 31 - 1) ≤ℤ v) × (v ≤ℤ pos (2 ^ 31 - 1))

int32_in_signed : (v : ℤ) → IsInt32 v → in_signed (2 ^ 31) v ≡ true
int32_in_signed (pos n) h = ground arith
int32_in_signed (negsuc n) h = ground arith

get_float_word :
    (bs rest : List ℕ) (w : ℕ)
    → get_word 4 bs ≡ some (w, rest)
    → get_float bs ≡ some (thousandths (signed (2 ^ 32) w), rest)
unfolding get_float
get_float_word bs rest w e = rw (e, get_float) refl

-- The bytes of a 32-bit count of thousandths are read back as that count, and nothing of what
-- follows is taken.
pub get_value-float_bytes :
    (v : ℤ) (rest : List ℕ)
    → IsInt32 v
    → get_value (float_bytes v ++ rest) ≡ some (thousandths v, rest)
unfolding get_value get_typed float_bytes code
get_value-float_bytes v rest h =
    let (less, same) = signed-word (2 ^ 31) v (int32_in_signed v h) in
    get_float_word (le_bytes 4 (word (2 ^ 32) v) ++ rest) rest (word (2 ^ 32) v)
      (get_word-le_bytes 4 (word (2 ^ 32) v) rest less)
    ∙ ap (λ x. some (thousandths x, rest)) same

length-as_bytes : (xs : List ℕ) → length (as_bytes xs) ≡ length xs
length-as_bytes [] = refl
length-as_bytes (x ∷ xs) = ap suc (length-as_bytes xs)

pub drop-append : (n : ℕ) (xs ys : List ℕ) → length xs ≡ n → drop n (xs ++ ys) ≡ ys
drop-append zero [] ys h = refl
drop-append zero (x ∷ xs) ys h = absurd (omega arith)
drop-append (suc n) [] ys h = absurd (omega arith)
drop-append (suc n) (x ∷ xs) ys h = drop-append n xs ys (omega arith)

pub take_front : (n : ℕ) (xs ys : List ℕ) → length xs ≡ n → take n (xs ++ ys) ≡ xs
take_front zero [] ys h = refl
take_front zero (x ∷ xs) ys h = absurd (omega arith)
take_front (suc n) [] ys h = absurd (omega arith)
take_front (suc n) (x ∷ xs) ys h = ap (λ zs. x ∷ zs) (take_front n xs ys (omega arith))

length-str_field : (s : List ℕ) (n : ℕ) → n ≤ length s → length (str_field s n) ≡ 8
length-str_field s n h =
    length-append (take (min send_str_len n) s) (replicate (send_str_len - min send_str_len n) 0)
    ∙ omega (
      arith,
      length-take (min send_str_len n) s,
      length-replicate {A = ℕ} (send_str_len - min send_str_len n) 0,
    )

-- A string's field as the receiver has it.
abbrev pub sent_text : List ℕ → List ℕ
sent_text s = as_bytes (str_field s (strnlen s value_str_len))

pub get_value-str_bytes :
    (s rest : List ℕ) → get_value (as_bytes (str_bytes s) ++ rest) ≡ some (text (sent_text s), rest)
unfolding get_value get_typed str_bytes get_text code
get_value-str_bytes s rest =
    let eight : length (sent_text s) ≡ 8 =
      length-as_bytes (str_field s (strnlen s value_str_len))
      ∙ length-str_field s (strnlen s value_str_len) (strnlen-le s value_str_len) in
    let room : leb 8 (length (sent_text s ++ rest)) ≡ true =
      ground (arith, length-append (sent_text s) rest, eight) in
    rw (room, take_front 8 (sent_text s) rest eight, drop-append 8 (sent_text s) rest eight) refl

pub as_bytes-le_bytes : (k v : ℕ) → as_bytes (le_bytes k v) ≡ le_bytes k v
as_bytes-le_bytes zero v = refl
as_bytes-le_bytes (suc k) v = ap₂ (λ x xs. x ∷ xs) (mod-mod v 256) (as_bytes-le_bytes k (v / 256))

code-byte : (t : SendType) → code t % 256 ≡ code t
unfolding code
code-byte uint8 = refl
code-byte uint16 = refl
code-byte uint32 = refl
code-byte uint64 = refl
code-byte int8 = refl
code-byte int16 = refl
code-byte int32 = refl
code-byte int64 = refl
code-byte float = refl
code-byte str = refl

as_bytes-int_bytes : (v : ℤ) → as_bytes (int_bytes v) ≡ int_bytes v
unfolding int_bytes
as_bytes-int_bytes v =
    ap₂ (λ x xs. x ∷ xs) (code-byte (compressed_type v))
      (as_bytes-le_bytes (width (compressed_type v)) (word (2 ^ (8 * width (compressed_type v))) v))

pub as_bytes-float_bytes : (v : ℤ) → as_bytes (float_bytes v) ≡ float_bytes v
unfolding float_bytes code
as_bytes-float_bytes v = ap (λ xs. 21 ∷ xs) (as_bytes-le_bytes 4 (word (2 ^ 32) v))

get_values-more :
    (n : ℕ) (bs bs' rest : List ℕ) (v : Received) (vs : List Received)
    → get_value bs ≡ some (v, bs')
    → get_values n bs' ≡ some (vs, rest)
    → get_values (suc n) bs ≡ some (v ∷ vs, rest)
unfolding get_values
get_values-more n bs bs' rest v vs e e' = rw (e, get_values, e') refl

-- What the receiver is to have: the value, or the mean, the minimum and the maximum.
unfoldable pub meant : ValueType → Sampled → Bool → List Received
meant i64 d single =
    if single
    then number d.value_64.sum ∷ []
    else number (div_trunc d.value_64.sum d.num_samples)
      ∷ number d.value_64.min
      ∷ number d.value_64.max
      ∷ []
meant f32 d single =
    if single
    then thousandths d.value_f.sum ∷ []
    else thousandths (div_trunc d.value_f.sum d.num_samples)
      ∷ thousandths d.value_f.min
      ∷ thousandths d.value_f.max
      ∷ []
meant string d single = text (sent_text d.value_s) ∷ []
meant _ d single = []

-- A string is one value: the code appends one whether or not it averages.
unfoldable pub is_countable : ValueType → Bool → Bool
is_countable string single = single
is_countable i64 single = true
is_countable f32 single = true
is_countable _ single = false

-- The samples' sum, minimum and maximum are in the range of their C type.
unfoldable pub InRange : ValueType → Sampled → Type 0
InRange i64 d = IsInt64 d.value_64.sum × IsInt64 d.value_64.min × IsInt64 d.value_64.max
InRange f32 d = IsInt32 d.value_f.sum × IsInt32 d.value_f.min × IsInt32 d.value_f.max
InRange _ d = Unit

unfoldable pub count : Bool → ℕ
count single = if single then 1 else 3

mean-IsInt64 : (v : ℤ) (n : ℕ) → IsInt64 v → IsInt64 (div_trunc v n)
mean-IsInt64 (pos v) n h = omega (arith, div-le_self v n)
mean-IsInt64 (negsuc v) n h = ground (arith, div-le_self (suc v) n)

mean-IsInt32 : (v : ℤ) (n : ℕ) → IsInt32 v → IsInt32 (div_trunc v n)
mean-IsInt32 (pos v) n h = omega (arith, div-le_self v n)
mean-IsInt32 (negsuc v) n h = ground (arith, div-le_self (suc v) n)

one_value :
    (bs rest : List ℕ) (v : Received)
    → get_value bs ≡ some (v, rest)
    → get_values 1 bs ≡ some (v ∷ [], rest)
unfolding get_values
one_value bs rest v e = get_values-more 0 bs rest rest v [] e refl

three_values :
    (P : ℤ → Type 0) (enc : ℤ → List ℕ) (val : ℤ → Received)
    → ((v : ℤ) (rest : List ℕ) → P v → get_value (enc v ++ rest) ≡ some (val v, rest))
    → (x y z : ℤ) (rest : List ℕ) → P x
    → P y
    → P z
    → get_values 3 ((enc x ++ (enc y ++ enc z)) ++ rest) ≡ some (val x ∷ val y ∷ val z ∷ [], rest)
unfolding get_values
three_values P enc val e x y z rest px py pz =
    let apart : (enc x ++ (enc y ++ enc z)) ++ rest ≡ enc x ++ (enc y ++ (enc z ++ rest)) =
      append_assoc (enc x) (enc y ++ enc z) rest
      ∙ ap (λ bs. enc x ++ bs) (append_assoc (enc y) (enc z) rest) in
    ap (get_values 3) apart
    ∙ get_values-more 2 (enc x ++ (enc y ++ (enc z ++ rest))) (enc y ++ (enc z ++ rest)) rest
        (val x) (val y ∷ val z ∷ []) (e x (enc y ++ (enc z ++ rest)) px)
        (get_values-more 1 (enc y ++ (enc z ++ rest)) (enc z ++ rest) rest (val y) (val z ∷ [])
          (e y (enc z ++ rest) py) (one_value (enc z ++ rest) rest (val z) (e z rest pz)))

as_bytes-three :
    (enc : ℤ → List ℕ)
    → ((v : ℤ) → as_bytes (enc v) ≡ enc v)
    → (x y z : ℤ) → as_bytes (enc x ++ (enc y ++ enc z)) ≡ enc x ++ (enc y ++ enc z)
as_bytes-three enc e x y z =
    as_bytes-append (enc x) (enc y ++ enc z)
    ∙ ap₂ (λ a b. a ++ b) (e x) (as_bytes-append (enc y) (enc z) ∙ ap₂ (λ a b. a ++ b) (e y) (e z))

pub get_values-values :
    (t : ValueType) (d : Sampled) (single : Bool) (rest : List ℕ)
    → is_countable t single ≡ true
    → InRange t d
    → get_values (count single) (as_bytes (values t d single) ++ rest)
      ≡ some (meant t d single, rest)
unfolding values meant is_countable InRange count
get_values-values i64 d true rest k (s, l, h) =
    ap (λ bs. get_values 1 (bs ++ rest)) (as_bytes-int_bytes d.value_64.sum)
    ∙ one_value (int_bytes d.value_64.sum ++ rest) rest (number d.value_64.sum)
        (get_value-int_bytes d.value_64.sum rest s)
get_values-values i64 d false rest k (s, l, h) =
    ap (λ bs. get_values 3 (bs ++ rest))
      (as_bytes-three int_bytes as_bytes-int_bytes (div_trunc d.value_64.sum d.num_samples)
        d.value_64.min d.value_64.max)
    ∙ three_values IsInt64 int_bytes number get_value-int_bytes
        (div_trunc d.value_64.sum d.num_samples) d.value_64.min d.value_64.max rest
        (mean-IsInt64 d.value_64.sum d.num_samples s) l h
get_values-values f32 d true rest k (s, l, h) =
    ap (λ bs. get_values 1 (bs ++ rest)) (as_bytes-float_bytes d.value_f.sum)
    ∙ one_value (float_bytes d.value_f.sum ++ rest) rest (thousandths d.value_f.sum)
        (get_value-float_bytes d.value_f.sum rest s)
get_values-values f32 d false rest k (s, l, h) =
    ap (λ bs. get_values 3 (bs ++ rest))
      (as_bytes-three float_bytes as_bytes-float_bytes (div_trunc d.value_f.sum d.num_samples)
        d.value_f.min d.value_f.max)
    ∙ three_values IsInt32 float_bytes thousandths get_value-float_bytes
        (div_trunc d.value_f.sum d.num_samples) d.value_f.min d.value_f.max rest
        (mean-IsInt32 d.value_f.sum d.num_samples s) l h
get_values-values string d true rest k h =
    one_value (as_bytes (str_bytes d.value_s) ++ rest) rest (text (sent_text d.value_s))
      (get_value-str_bytes d.value_s rest)
get_values-values string d false rest k h = cc
get_values-values invalid d single rest k h = cc
get_values-values (other n) d single rest k h = cc
