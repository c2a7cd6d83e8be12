-- ===== src/Text/Tests.antt =====
-- "96 8N1", and the theorem applied there.
use osm_firmware_v.Base.{◌≡◌, ◌%◌, ◌+◌, ◌^◌, refl, true, [], ◌∷◌, ◌++◌, some, none, arith, min}
use osm_firmware_v.Text.{
  Setup, parity_none, stop_bits_1, decompose_uart_str, read_setup, digits_from,
}
use osm_firmware_v.Text.Uart.{parity_char, stop_chars, value_from, decompose_uart_str-setup}

abbrev old : Setup
old = record { speed = 0; databits = 0; parity = parity_none; stop = stop_bits_1 }

-- With only the speed the code reads past the terminator.
only_speed : decompose_uart_str 0xFFFF_FFFF (57 ∷ 54 ∷ []) old ≡ none
unfolding decompose_uart_str read_setup digits_from
only_speed = refl

decompose_uart_str-setup_example :
    decompose_uart_str 0xFFFF_FFFF
      ((57 ∷ 54 ∷ []) ++ (32 ∷ (48 + 8) ∷ parity_char parity_none ∷ stop_chars stop_bits_1))
      old
    ≡ some (
      true,
      record {
        speed = min (value_from 0 (57 ∷ 54 ∷ [])) 0xFFFF_FFFF % 2 ^ 32;
        databits = 8;
        parity = parity_none;
        stop = stop_bits_1;
      },
    )
decompose_uart_str-setup_example =
    decompose_uart_str-setup 0xFFFF_FFFF 8 57 (54 ∷ []) parity_none stop_bits_1 old
      (refl, (refl, tt)) (omega arith)
