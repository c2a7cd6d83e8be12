-- ===== src/Common/Wait.antt =====
-- osm_main_loop_iterate_for: serve the UARTs until a test of the caller holds or time runs out.
-- What it calls is a parameter, on a state of the platform; reading the clock changes nothing, and
-- time passes in the other calls. The loop runs on fuel.
pub mod Returns
use osm_firmware_v.Base.{
  ℕ, zero, suc, ◌+◌, ◌/◌, Bool, true, false, Option, none, some, ltb, ◌==◌, if◌then◌else◌,
}
use osm_firmware_v.Base.Words.{add32}
use osm_firmware_v.Common.{since_boot_delta}

-- OSM_IWDG_NORMAL_TIME_MS
abbrev pub iwdg_normal_time_ms : ℕ
iwdg_normal_time_ms = 10000

-- The calls that the loop makes.
pub record Platform {ℓ} (S : Type ℓ) : Type ℓ where
  pub now : S → ℕ
  pub should_exit : S → Bool × S
  pub in_drain : ℕ → S → S
  pub out_drain : S → S
  pub tight_loop : S → S
  pub watchdog_reset : S → S
  pub uart_count : ℕ
  pub cmd_uart : ℕ

-- The loop over the UARTs from `uart`, `k` of them; the command line's is left alone.
unfoldable pub drain_uarts {ℓ} : {S : Type ℓ} → Platform S → ℕ → ℕ → S → S
drain_uarts p zero uart s = s
drain_uarts p (suc k) uart s =
    drain_uarts p k (uart + 1) (if uart == p.cmd_uart then s else p.in_drain uart s)

-- The body of the loop up to its test.
unfoldable pub pass {ℓ} : {S : Type ℓ} → Platform S → S → S
pass p s = p.tight_loop (p.out_drain (drain_uarts p p.uart_count 0 s))

-- The end of the body: the watchdog is kicked when it is due.
unfoldable pub kicked {ℓ} : {S : Type ℓ} → Platform S → ℕ → ℕ → S → ℕ × S
kicked p start kick s =
    if ltb kick (since_boot_delta (p.now s) start)
    then (add32 kick (iwdg_normal_time_ms / 2), p.watchdog_reset s)
    else (kick, s)

unfoldable pub iterate {ℓ} : {S : Type ℓ} → Platform S → ℕ → ℕ → ℕ → ℕ → S → Option (Bool × S)
iterate p zero timeout start kick s = none
iterate p (suc fuel) timeout start kick s =
    let (exit, s') = p.should_exit (pass p s) in
    let (kick', s'') = kicked p start kick s' in
    let rest = iterate p fuel timeout start kick' s'' in
    if ltb (since_boot_delta (p.now s) start) timeout
    then (if exit then some (true, s') else rest)
    else some (false, s)

-- osm_main_loop_iterate_for
unfoldable pub main_loop_iterate_for {ℓ} : {S : Type ℓ} → Platform S → ℕ → ℕ → S → Option (Bool × S)
main_loop_iterate_for p fuel timeout s =
    let (exit, s') = p.should_exit (p.watchdog_reset s) in
    let rest = iterate p fuel timeout (p.now s) (iwdg_normal_time_ms / 2) s' in
    if exit then some (true, s') else rest
