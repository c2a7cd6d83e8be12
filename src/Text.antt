-- ===== src/Text.antt =====
-- core/base.c: reading the setup of a UART, such as "115200 8N1", and skipping spaces.
-- A string is the list of its characters; the terminator stands behind its end.
pub mod Uart
mod Tests
use osm_firmware_v.Base.{
  ℕ, zero, suc, ◌+◌, ◌-◌, ◌*◌, ◌%◌, ◌^◌, Bool, true, false, not, ◌&&◌, ◌||◌, List, [], ◌∷◌, Option,
  none, some, leb, ◌==◌, if◌then◌else◌, get_or, min,
}

-- osm_skip_space and osm_skip_to_space
unfoldable pub skip_space : List ℕ → List ℕ
skip_space [] = []
skip_space (c ∷ s) = let rest = skip_space s in if c == 32 then rest else c ∷ s

unfoldable pub skip_to_space : List ℕ → List ℕ
skip_to_space [] = []
skip_to_space (c ∷ s) =
    let rest = skip_to_space s in if not (c == 0) && not (c == 32) then rest else c ∷ s

-- `osm_osm_uart_parity_t` and `osm_osm_uart_stop_bits_t`
pub data Parity : Type 0 where
  parity_none parity_even parity_odd : Parity

pub data StopBits : Type 0 where
  stop_bits_1 stop_bits_1_5 stop_bits_2 : StopBits

-- What the four pointers of osm_decompose_uart_str point to.
pub record Setup : Type 0 where
  pub speed : ℕ
  pub databits : ℕ
  pub parity : Parity
  pub stop : StopBits

abbrev pub is_digit : ℕ → Bool
is_digit c = leb 48 c && leb c 57

-- The digits that `strtoul` reads, and what follows them.
unfoldable pub digits_from : ℕ → List ℕ → ℕ × List ℕ
digits_from acc [] = (acc, [])
digits_from acc (c ∷ s) =
    let rest = digits_from (10 * acc + (c - 48)) s in if is_digit c then rest else (acc, c ∷ s)

unfoldable pub parity_of : ℕ → Option Parity
parity_of c =
    if c == 78
    then some parity_none
    else (if c == 69 then some parity_even else (if c == 79 then some parity_odd else none))

-- The last switch, on what is left of the string.
unfoldable pub stop_of : List ℕ → Option StopBits
stop_of s =
    if get_or s 0 0 == 49
    then (if not (get_or s 1 0 == 0)
        then (if not (get_or s 1 0 == 46) || not (get_or s 2 0 == 53)
            then none
            else some stop_bits_1_5)
        else some stop_bits_1)
    else (if get_or s 0 0 == 50 then some stop_bits_2 else none)

-- `++pos`; past the terminator the string is not to be read, so no result.
abbrev pub advance : List ℕ → Option (List ℕ)
advance [] = none
advance (c ∷ s) = some s

unfoldable pub read_stop : Setup → List ℕ → Bool × Setup
read_stop u s = elim (stop_of s) [ none ↦ (false, u) | some b ↦ (true, record u { stop = b }) ]

unfoldable pub read_parity : Setup → List ℕ → Bool × Setup
read_parity u [] = (false, u)
read_parity u (c ∷ s) = elim (parity_of c) [
  | none ↦ (false, u)
  | some p ↦ read_stop (record u { parity = p }) (skip_space s)
]

unfoldable pub read_databits : Setup → List ℕ → Bool × Setup
read_databits u [] = (false, u)
read_databits u (c ∷ s) =
    let rest = read_parity (record u { databits = c - 48 }) (skip_space s) in
    if not (is_digit c) then (false, u) else rest

-- osm_decompose_uart_str behind the number: `speed` is set, and what follows is read.
unfoldable pub read_setup : ℕ → Setup → ℕ × List ℕ → Option (Bool × Setup)
read_setup ulong_max u (value, pos) =
    let u' = record u { speed = min value ulong_max % 2 ^ 32 } in
    elim (advance pos) [ none ↦ none | some s ↦ some (read_databits u' (skip_space s)) ]

-- osm_decompose_uart_str, its pointers not null; `ulong_max` is where `strtoul` stops on a target.
unfoldable pub decompose_uart_str : ℕ → List ℕ → Setup → Option (Bool × Setup)
decompose_uart_str ulong_max str u =
    if not (is_digit (get_or str 0 0))
    then some (false, u)
    else read_setup ulong_max u (digits_from 0 str)
