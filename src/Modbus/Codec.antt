-- ===== src/Modbus/Codec.antt =====
-- The register codecs: what is written and what is read back.
use osm_firmware_v.Base.{
  ℕ, suc, ◌+◌, ◌-◌, ◌/◌, ◌%◌, ◌^◌, ◌<◌, ◌≡◌, refl, ap, sym, ◌∙◌, Bool, true, false, List, [], ◌∷◌,
  ◌++◌, some, append_assoc, set, if◌then◌else◌, drop, arith, length,
}
use osm_firmware_v.Modbus.{
  type_known, RegType, u16, i16, u32, i32, float, other, ByteOrder, msb, lsb, unknown, WordOrder,
  msw, lsw, unordered, write, append_u16, append_words, append_u32, append_value, data_to_u16,
  join_words, data_to_u32, reg_ready, Reg, reg_set, widen, reg_store, widened, reg_u16_cb,
  reg_i16_cb, reg_u32_cb, reg_i32_cb, reg_float_cb, reg_cb,
}

unfoldable pub order_known : ByteOrder → Bool
order_known (unknown n) = false
order_known _ = true

unfoldable pub words_known : WordOrder → Bool
words_known (unordered n) = false
words_known _ = true

-- The bytes of a word, and of two words, in each order.
unfoldable pub word_bytes : ByteOrder → ℕ → List ℕ
word_bytes msb v = v / 2 ^ 8 ∷ v % 2 ^ 8 ∷ []
word_bytes lsb v = v % 2 ^ 8 ∷ v / 2 ^ 8 ∷ []
word_bytes (unknown n) v = []

unfoldable pub long_bytes : ByteOrder → WordOrder → ℕ → List ℕ
long_bytes order msw v = word_bytes order (v / 2 ^ 16) ++ word_bytes order (v % 2 ^ 16)
long_bytes order lsw v = word_bytes order (v % 2 ^ 16) ++ word_bytes order (v / 2 ^ 16)
long_bytes order (unordered n) v = []

unfoldable pub is_word : RegType → Bool
is_word u16 = true
is_word i16 = true
is_word _ = false

abbrev pub value_bytes : RegType → ByteOrder → WordOrder → ℕ → List ℕ
value_bytes t order words v =
    if is_word t then word_bytes order (v % 2 ^ 16) else long_bytes order words v

abbrev pub size_of : RegType → ℕ
size_of t = if is_word t then 2 else 4

-- What a register of a type holds of a word.
unfoldable pub held : RegType → ℕ → ℕ
held u16 v = v % 2 ^ 16
held i16 v = widen (v % 2 ^ 16)
held _ v = v

read_word :
    (order : ByteOrder) (v : ℕ) (rest : List ℕ)
    → order_known order ≡ true
    → data_to_u16 (word_bytes order v ++ rest) 2 order ≡ some v
unfolding data_to_u16 word_bytes order_known
read_word msb v rest k = ap some (omega arith)
read_word lsb v rest k = ap some (omega arith)
read_word (unknown n) v rest k = cc

drop_word :
    (order : ByteOrder) (v : ℕ) (rest : List ℕ)
    → order_known order ≡ true
    → drop 2 (word_bytes order v ++ rest) ≡ rest
unfolding word_bytes order_known
drop_word msb v rest k = refl
drop_word lsb v rest k = refl
drop_word (unknown n) v rest k = cc

read_words :
    (order : ByteOrder) (words : WordOrder) (first second : ℕ) (rest : List ℕ)
    → order_known order ≡ true
    → data_to_u32 (word_bytes order first ++ (word_bytes order second ++ rest)) 4 order words
      ≡ join_words words first second
unfolding data_to_u32
read_words order words first second rest k =
    rw
      (
        read_word order first (word_bytes order second ++ rest) k,
        drop_word order first (word_bytes order second ++ rest) k,
        read_word order second rest k,
      )
      refl

read_long :
    (order : ByteOrder) (words : WordOrder) (v : ℕ) (rest : List ℕ)
    → order_known order ≡ true
    → words_known words ≡ true
    → data_to_u32 (long_bytes order words v ++ rest) 4 order words ≡ some v
unfolding long_bytes words_known join_words
read_long order (unordered n) v rest k w = cc
read_long order msw v rest k w =
    ap (λ bs. data_to_u32 bs 4 order msw)
      (append_assoc (word_bytes order (v / 2 ^ 16)) (word_bytes order (v % 2 ^ 16)) rest)
    ∙ read_words order msw (v / 2 ^ 16) (v % 2 ^ 16) rest k
    ∙ ap some (omega arith)
read_long order lsw v rest k w =
    ap (λ bs. data_to_u32 bs 4 order lsw)
      (append_assoc (word_bytes order (v % 2 ^ 16)) (word_bytes order (v / 2 ^ 16)) rest)
    ∙ read_words order lsw (v % 2 ^ 16) (v / 2 ^ 16) rest k
    ∙ ap some (omega arith)

-- The bytes that stand for a value in a known type and known orders, whatever follows them, make
-- _modbus_reg_cb store in a register of that type the value as the type holds it, and mark it
-- ready.
pub reg_cb-value_bytes :
    (t : RegType) (reg : Reg) (order : ByteOrder) (words : WordOrder) (v : ℕ) (rest : List ℕ)
    → reg.type ≡ t
    → type_known t ≡ true
    → order_known order ≡ true
    → words_known words ≡ true
    → reg_cb reg (value_bytes t order words v ++ rest) (size_of t) order words
      ≡ record reg { value_data = held t v; value_state = reg_ready }
unfolding reg_cb is_word held type_known reg_u16_cb reg_i16_cb reg_u32_cb reg_i32_cb reg_float_cb
    reg_store reg_set widened
reg_cb-value_bytes u16 reg order words v rest e k o w =
    rw (e, read_word order (v % 2 ^ 16) rest o) refl
reg_cb-value_bytes i16 reg order words v rest e k o w =
    rw (e, read_word order (v % 2 ^ 16) rest o) refl
reg_cb-value_bytes u32 reg order words v rest e k o w =
    rw (e, read_long order words v rest o w) refl
reg_cb-value_bytes i32 reg order words v rest e k o w =
    rw (e, read_long order words v rest o w) refl
reg_cb-value_bytes float reg order words v rest e k o w =
    rw (e, read_long order words v rest o w) refl
reg_cb-value_bytes (other n) reg order words v rest e k o w = cc

append_u16-write :
    (arr : List ℕ) (at len v : ℕ) (order : ByteOrder)
    → 2 < len
    → order_known order ≡ true
    → append_u16 arr at len v order ≡ (true, write arr at (word_bytes order v))
unfolding append_u16 word_bytes order_known
append_u16-write arr at len v msb h k = ground arith
append_u16-write arr at len v lsb h k = ground arith
append_u16-write arr at len v (unknown n) h k = cc

pub write-append :
    (xs ys arr : List ℕ) (at : ℕ)
    → write arr at (xs ++ ys) ≡ write (write arr at xs) (at + length xs) ys
write-append [] ys arr at = let e : at ≡ at + 0 = omega arith in ap (λ i. write arr i ys) e
write-append (x ∷ xs) ys arr at =
    let e : at + 1 + length xs ≡ at + suc (length xs) = omega arith in
    write-append xs ys (set arr at x) (at + 1)
    ∙ ap (λ i. write (write (set arr at x) (at + 1) xs) i ys) e

pub length-word_bytes :
    (order : ByteOrder) (v : ℕ) → order_known order ≡ true → length (word_bytes order v) ≡ 2
unfolding word_bytes order_known
length-word_bytes msb v k = refl
length-word_bytes lsb v k = refl
length-word_bytes (unknown n) v k = cc

append_words-write :
    (arr : List ℕ) (at len first second : ℕ) (order : ByteOrder)
    → 4 < len
    → order_known order ≡ true
    → append_words arr at len first second order
      ≡ (true, write arr at (word_bytes order first ++ word_bytes order second))
unfolding append_words
append_words-write arr at len first second order h k =
    let e : at + 2 ≡ at + length (word_bytes order first) =
      ap (λ n. at + n) (sym (length-word_bytes order first k)) in
    rw
      (
        append_u16-write arr at len first order (omega arith) k,
        append_u16-write (write arr at (word_bytes order first)) (at + 2) (len - 2) second order
            (omega arith) k,
      )
      (ap (λ bs. (true, bs))
        (ap (λ i. write (write arr at (word_bytes order first)) i (word_bytes order second)) e
          ∙ sym (write-append (word_bytes order first) (word_bytes order second) arr at)))

append_u32-write :
    (arr : List ℕ) (at len v : ℕ) (order : ByteOrder) (words : WordOrder)
    → 4 < len
    → order_known order ≡ true
    → words_known words ≡ true
    → append_u32 arr at len v order words ≡ (true, write arr at (long_bytes order words v))
unfolding append_u32 long_bytes words_known
append_u32-write arr at len v order msw h k w =
    ground (arith, append_words-write arr at len (v / 2 ^ 16) (v % 2 ^ 16) order h k)
append_u32-write arr at len v order lsw h k w =
    ground (arith, append_words-write arr at len (v % 2 ^ 16) (v / 2 ^ 16) order h k)
append_u32-write arr at len v order (unordered n) h k w = cc

pub append_value-write :
    (t : RegType) (order : ByteOrder) (words : WordOrder) (arr : List ℕ) (at len v size : ℕ)
    → 4 < len
    → type_known t ≡ true
    → order_known order ≡ true
    → words_known words ≡ true
    → append_value arr at len t order words v size
      ≡ ((true, write arr at (value_bytes t order words v)), size + size_of t)
unfolding append_value is_word type_known
append_value-write u16 order words arr at len v size h k o w =
    ap (λ r. (r, size + 2)) (append_u16-write arr at len (v % 2 ^ 16) order (omega arith) o)
append_value-write i16 order words arr at len v size h k o w =
    ap (λ r. (r, size + 2)) (append_u16-write arr at len (v % 2 ^ 16) order (omega arith) o)
append_value-write u32 order words arr at len v size h k o w =
    ap (λ r. (r, size + 4)) (append_u32-write arr at len v order words h o w)
append_value-write i32 order words arr at len v size h k o w =
    ap (λ r. (r, size + 4)) (append_u32-write arr at len v order words h o w)
append_value-write float order words arr at len v size h k o w =
    ap (λ r. (r, size + 4)) (append_u32-write arr at len v order words h o w)
append_value-write (other n) order words arr at len v size h k o w = cc
