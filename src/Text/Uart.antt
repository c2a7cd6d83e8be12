-- ===== src/Text/Uart.antt =====
-- The setups that are written the usual way.
use osm_firmware_v.Base.{
  ℕ, ◌+◌, ◌-◌, ◌*◌, ◌%◌, ◌^◌, ◌<◌, ◌≡◌, refl, ap, ◌∙◌, true, false, List, [], ◌∷◌, ◌++◌, some, ◌==◌,
  min, arith,
}
use osm_firmware_v.Text.{
  skip_space, Parity, parity_none, parity_even, parity_odd, StopBits, stop_bits_1, stop_bits_1_5,
  stop_bits_2, Setup, is_digit, digits_from, parity_of, stop_of, read_stop, read_parity,
  read_databits, read_setup, decompose_uart_str,
}

abbrev pub parity_char : Parity → ℕ
parity_char parity_none = 78
parity_char parity_even = 69
parity_char parity_odd = 79

abbrev pub stop_chars : StopBits → List ℕ
stop_chars stop_bits_1 = 49 ∷ []
stop_chars stop_bits_1_5 = 49 ∷ 46 ∷ 53 ∷ []
stop_chars stop_bits_2 = 50 ∷ []

-- The digits of a number, and its value.
abbrev pub AreDigits : List ℕ → Type 0
AreDigits [] = Unit
AreDigits (c ∷ s) = (is_digit c ≡ true) × AreDigits s

abbrev pub value_from : ℕ → List ℕ → ℕ
value_from acc [] = acc
value_from acc (c ∷ s) = value_from (10 * acc + (c - 48)) s

digits_from-append :
    (acc : ℕ) (ds s : List ℕ)
    → AreDigits ds
    → digits_from acc (ds ++ (32 ∷ s)) ≡ (value_from acc ds, 32 ∷ s)
unfolding digits_from
digits_from-append acc [] s h = refl
digits_from-append acc (d ∷ ds) s (hd, hs) =
    rw hd (digits_from-append (10 * acc + (d - 48)) ds s hs)

read_stop-stop_chars :
    (u : Setup) (b : StopBits)
    → read_stop u (skip_space (stop_chars b)) ≡ (true, record u { stop = b })
unfolding read_stop skip_space stop_of
read_stop-stop_chars u stop_bits_1 = refl
read_stop-stop_chars u stop_bits_1_5 = refl
read_stop-stop_chars u stop_bits_2 = refl

read_parity-parity_char :
    (u : Setup) (p : Parity) (b : StopBits)
    → read_parity u (skip_space (parity_char p ∷ stop_chars b))
      ≡ (true, record u { parity = p; stop = b })
unfolding read_parity skip_space parity_of
read_parity-parity_char u parity_none b = read_stop-stop_chars (record u { parity = parity_none }) b
read_parity-parity_char u parity_even b = read_stop-stop_chars (record u { parity = parity_even }) b
read_parity-parity_char u parity_odd b = read_stop-stop_chars (record u { parity = parity_odd }) b

read_databits-digit :
    (u : Setup) (d : ℕ) (p : Parity) (b : StopBits)
    → d < 10
    → read_databits u (skip_space ((48 + d) ∷ parity_char p ∷ stop_chars b))
      ≡ (true, record u { databits = d; parity = p; stop = b })
unfolding read_databits skip_space
read_databits-digit u d p b h =
    let not_space : (48 + d == 32) ≡ false = ground arith in
    let digit : is_digit (48 + d) ≡ true = ground arith in
    let same : 48 + d - 48 ≡ d = omega arith in
    rw (not_space, read_databits, digit, same)
      (read_parity-parity_char (record u { databits = d }) p b)

-- A speed in decimal digits, a space, a digit, the letter of a parity and the characters of a
-- count of stop bits: osm_decompose_uart_str returns true and sets these four, the speed as far
-- as unsigned long and uint32_t hold it.
pub decompose_uart_str-setup :
    (ulong_max d : ℕ) (c : ℕ) (ds : List ℕ) (p : Parity) (b : StopBits) (u : Setup)
    → AreDigits (c ∷ ds)
    → d < 10
    → decompose_uart_str ulong_max ((c ∷ ds) ++ (32 ∷ (48 + d) ∷ parity_char p ∷ stop_chars b)) u
      ≡ some (
        true,
        record {
          speed = min (value_from 0 (c ∷ ds)) ulong_max % 2 ^ 32;
          databits = d;
          parity = p;
          stop = b;
        },
      )
unfolding decompose_uart_str read_setup
decompose_uart_str-setup ulong_max d c ds p b u (hc, hs) h = rw hc (
    ap (read_setup ulong_max u)
      (digits_from-append 0 (c ∷ ds) ((48 + d) ∷ parity_char p ∷ stop_chars b) (hc, hs))
    ∙ ap some (
        read_databits-digit (record u { speed = min (value_from 0 (c ∷ ds)) ulong_max % 2 ^ 32 }) d
          p b h))
