-- ===== src/Common/Tests.antt =====
-- Runs of core/common.c, and the theorems about it applied there.
use osm_firmware_v.Base.{
  ℕ, ◌+◌, ◌-◌, ◌*◌, ◌/◌, ◌^◌, ◌%◌, ◌≤◌, ◌<◌, ◌≡◌, ◌↔◌, refl, arith, List, [], ◌∷◌, Bool, true,
  false, not, ◌&&◌, some, ltb, leb, ◌==◌, if◌then◌else◌, take,
}
use osm_firmware_v.Base.Strings.{strlen, strnlen}
use osm_firmware_v.Base.Words.{add32}
use osm_firmware_v.Common.{
  since_boot_delta, nlz, nlz_first, nlz_mask, nlz_last, ilog10, u64_multiply_overflow_check,
  u64_addition_overflow_check, msg_is, is_str, str_is_valid_ascii,
}
use osm_firmware_v.Common.Time.{since_boot_delta_lem}
use osm_firmware_v.Common.Logarithm.{nlz_lem}
use osm_firmware_v.Common.Decimal.{IsLog10, ilog10_lem}
use osm_firmware_v.Common.Overflow.{addition_lem, multiplication_lem}
use osm_firmware_v.Common.Strings.{is_str_lem, msg_is_lem, is_ascii, str_is_valid_ascii_lem}
use osm_firmware_v.Common.Wait.{Platform, pass, drain_uarts, main_loop_iterate_for}
use osm_firmware_v.Common.Wait.Returns.{Clock, Waited, main_loop_iterate_for-Waited}

-- Six milliseconds over the wrap of the counter are five for the code.
wraps : since_boot_delta 2 0xFFFF_FFFC ≡ 5
unfolding since_boot_delta
wraps = refl

zeros : (nlz 0 ≡ 32) × (nlz 1 ≡ 31) × (ilog10 0 ≡ 0xFFFF_FFFF) × (ilog10 1000 ≡ 3)
unfolding nlz ilog10 nlz_first nlz_mask nlz_last
zeros = (refl, refl, refl, refl)

since_boot_delta_lem_example :
    since_boot_delta (add32 0xFFFF_FFFC 6) 0xFFFF_FFFC
    ≡ (if ltb (0xFFFF_FFFC + 6) (2 ^ 32) then 6 else 5)
since_boot_delta_lem_example = since_boot_delta_lem 0xFFFF_FFFC 6 (omega arith) (omega arith)

nlz_lem_example : (2 ^ 31 ≤ 1000 * 2 ^ nlz 1000) × (1000 * 2 ^ nlz 1000 < 2 ^ 32) × (nlz 1000 < 32)
nlz_lem_example = nlz_lem 1000 (omega arith) (omega arith)

ilog10_lem_example : IsLog10 1000 (ilog10 1000)
ilog10_lem_example = ilog10_lem 1000 (omega arith) (omega arith)

addition_lem_example :
    u64_addition_overflow_check 7 5 6
    ≡ (if ltb (5 + 6) (2 ^ 64 - 1) then (true, 5 + 6) else (false, 7))
addition_lem_example = addition_lem 7 5 6 (omega arith) (omega arith)

multiplication_lem_example :
    u64_multiply_overflow_check 7 5 6
    ≡ some (if ltb ((5 + 1) * 6) (2 ^ 64) then (true, 5 * 6) else (false, 7))
multiplication_lem_example = multiplication_lem 7 5 6 (omega arith) (omega arith) (omega arith)

abbrev meas : List ℕ
meas = 109 ∷ 101 ∷ 97 ∷ 115 ∷ []

is_str_lem_example :
    (is_str meas (109 ∷ 101 ∷ []) 2 ≡ true)
    ↔ ((2 ≡ strlen meas) × (take 2 meas ≡ take 2 (109 ∷ 101 ∷ [])))
is_str_lem_example = is_str_lem meas (109 ∷ 101 ∷ []) 2

msg_is_lem_example :
    (msg_is (109 ∷ 101 ∷ []) meas ≡ true)
    ↔ (take (strlen (109 ∷ 101 ∷ [])) (109 ∷ 101 ∷ []) ≡ take (strlen (109 ∷ 101 ∷ [])) meas)
msg_is_lem_example = msg_is_lem (109 ∷ 101 ∷ []) meas

str_is_valid_ascii_lem_example :
    str_is_valid_ascii meas 3 true
    ≡ (not (true && strnlen meas 3 == 0) && is_ascii (take (strnlen meas 3) meas))
str_is_valid_ascii_lem_example = str_is_valid_ascii_lem meas 3 true

-- A platform whose state is the count of cycles, four to the millisecond: a pass of the loop takes
-- one, as on a port whose tight loop does nothing, and the test holds from the 50th millisecond on.
abbrev ticking : Platform ℕ
ticking = record {
  now = λ s. s / 4 % 2 ^ 32;
  should_exit = λ s. (leb 200 s, s);
  in_drain = λ uart s. s;
  out_drain = λ s. s + 1;
  tight_loop = λ s. s;
  watchdog_reset = λ s. s + 2;
  uart_count = 1;
  cmd_uart = 0;
}

ticking-Clock : Clock (λ s. s / 4) (λ s. s) 1 ticking 4
unfolding pass drain_uarts
ticking-Clock = record {
  reads = λ s. refl;
  counts = λ s. (omega arith, omega arith);
  body = λ s. (omega arith, (omega arith, omega arith, omega arith));
  test = λ s. (omega arith, omega arith, omega arith);
  kick = λ s. (omega arith, omega arith, omega arith);
}

main_loop_iterate_for-Waited_example :
    (res : Bool × ℕ) × (main_loop_iterate_for ticking 100 20 181 ≡ some res)
    × Waited ticking (λ s. s / 4) 45 20 res
main_loop_iterate_for-Waited_example =
    main_loop_iterate_for-Waited ticking (λ s. s / 4) (λ s. s) 4 1 ticking-Clock 100 20 181
      (omega arith) (omega arith)
