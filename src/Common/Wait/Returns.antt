-- ===== src/Common/Wait/Returns.antt =====
-- When osm_main_loop_iterate_for returns, and with what.
use native.Mathlib.Nat.{add-mul, mul-le-mul_right}
use osm_firmware_v.Base.{
  ℕ, zero, suc, ◌+◌, ◌-◌, ◌*◌, ◌/◌, ◌%◌, ◌^◌, ◌≤◌, ◌<◌, ◌≡◌, refl, ap, ◌∙◌, arith, inl, inr, ◌⊎◌,
  Bool, true, false, some, ltb, Bool-cases, ltb→lt, ltb→le,
}
use osm_firmware_v.Base.Words.{add32}
use osm_firmware_v.Common.{since_boot_delta}
use osm_firmware_v.Common.Time.{since_boot_delta_lem}
use osm_firmware_v.Common.Wait.{
  Platform, pass, kicked, iterate, main_loop_iterate_for, iwdg_normal_time_ms,
}

module _ {ℓ} {S : Type ℓ} (ms ticks : S → ℕ) (longest : ℕ) where
  -- What a call may do to the clock: it is not turned back, and the call is over in time.
  abbrev pub Later : S → S → Type 0
  Later s s' = (ticks s ≤ ticks s') × (ms s ≤ ms s') × (ms s' ≤ ms s + longest)

  -- The platform's clock: `ticks` counts the cycles of the processor without end, `rate` of them
  -- make a millisecond, `now` reads the low word of the milliseconds, and the body of the loop takes
  -- a cycle at least. A round may well end in the millisecond in which it began.
  pub record Clock (p : Platform S) (rate : ℕ) : Type ℓ where
    pub reads : (s : S) → p.now s ≡ ms s % 2 ^ 32
    pub counts : (s : S) → (ms s * rate ≤ ticks s) × (ticks s < (ms s + 1) * rate)
    pub body :
        (s : S)
        → (ticks s < ticks (p.should_exit (pass p s)).1) × Later s (p.should_exit (pass p s)).1
    pub test : (s : S) → Later s (p.should_exit s).1
    pub kick : (s : S) → Later s (p.watchdog_reset s)

-- A run that began at `from`: it ran out of time, or a test of the caller's held.
abbrev pub Waited {ℓ} : {S : Type ℓ} → Platform S → (S → ℕ) → ℕ → ℕ → Bool × S → Type ℓ
Waited {S = S} p ms from timeout (exit, s') =
    ((exit ≡ false) × (from + timeout ≤ ms s'))
    ⊎ ((exit ≡ true) × ((u : S) × (p.should_exit u ≡ (true, s'))))

-- The difference is the time that passed, or, once the counter has wrapped, a millisecond less.
delta_close :
    (from now : ℕ)
    → from ≤ now
    → now < from + 2 ^ 32
    → (since_boot_delta (now % 2 ^ 32) (from % 2 ^ 32) ≤ now - from)
      × (now - from ≤ since_boot_delta (now % 2 ^ 32) (from % 2 ^ 32) + 1)
delta_close from now h k =
    let e : now % 2 ^ 32 ≡ add32 (from % 2 ^ 32) (now - from) = omega arith in
    let d = since_boot_delta_lem (from % 2 ^ 32) (now - from) (omega arith) (omega arith) in
    rw e (ground (arith, d))

module _ {ℓ} {S : Type ℓ} (p : Platform S) (ms ticks : S → ℕ) (rate longest : ℕ)
    (clock : Clock ms ticks longest p rate) where
  kicked-Later : (start kick : ℕ) (s : S) → Later ms ticks longest s (kicked p start kick s).1
  unfolding kicked
  kicked-Later start kick s = elim (Bool-cases (ltb kick (since_boot_delta (p.now s) start))) [
    | inl e ↦ rw e (clock.kick s)
    | inr e ↦ rw e (omega arith, omega arith, omega arith)
  ]

  -- Each round either ends the wait or takes a cycle of those before `last`, the first that is
  -- too late.
  iterate-Waited :
      (last fuel timeout from kick : ℕ) (s : S)
      → ((t : S) → ms t ≤ from + timeout → ticks t < last)
      → timeout + longest + longest + 1 < 2 ^ 32
      → from ≤ ms s
      → ms s ≤ from + timeout + longest + longest
      → 0 < fuel
      → last < fuel + ticks s
      → (res : Bool × S) × (iterate p fuel timeout (from % 2 ^ 32) kick s ≡ some res)
        × Waited p ms from timeout res
  unfolding iterate
  iterate-Waited last zero timeout from kick s in_time small began not_late some_fuel enough =
      absurd (omega arith)
  iterate-Waited last (suc fuel) timeout from kick s in_time small began not_late some_fuel enough =
      let (at_most, at_least) = delta_close from (ms s) began (omega arith) in
      let (on, (ticked, goes, bounded)) = clock.body s in
      let after = (p.should_exit (pass p s)).1 in
      rw (clock.reads s)
        (elim (Bool-cases (ltb (since_boot_delta (ms s % 2 ^ 32) (from % 2 ^ 32)) timeout)) [
          | inr late ↦
              rw late ((false, s), refl, inl (refl, omega (arith, at_least, ltb→le _ _ late)))
          | inl early ↦ elim (Bool-cases (p.should_exit (pass p s)).0) [
            | inl exit ↦
                rw (early, exit)
                  ((true, after), refl, inr (refl, (pass p s, ap (λ b. (b, after)) exit)))
            | inr stay ↦
                let (later, kept, short) = kicked-Later (from % 2 ^ 32) kick after in
                let soon = ltb→lt _ _ early in
                let left : ticks s < last = in_time s (omega (arith, at_least, soon)) in
                rw (early, stay)
                  (iterate-Waited last fuel timeout from _ (kicked p (from % 2 ^ 32) kick after).1
                    in_time small (omega (arith, kept, goes))
                    (omega (arith, short, bounded, at_least, soon)) (omega (arith, left))
                    (omega (arith, later, on)))
          ]
        ])

  -- Within the time, fewer cycles have passed than the milliseconds have.
  before_last :
      (from timeout : ℕ) (t : S) → ms t ≤ from + timeout → ticks t < (from + timeout + 1) * rate
  before_last from timeout t h =
      let (_, below) = clock.counts t in
      let more : (ms t + 1) * rate ≤ (from + timeout + 1) * rate =
        mul-le-mul_right rate (omega arith) in
      omega (arith, below, more)

  -- On a platform where each round of the loop takes a cycle of the processor at least, rate
  -- cycles make a millisecond, no call takes more than longest milliseconds, and timeout + 2 *
  -- longest + 1 is below 2^32, with fuel for more than (timeout + 1) * rate rounds
  -- osm_main_loop_iterate_for returns: false only when timeout milliseconds at least have passed
  -- since the call, and true only when a test of the caller's held.
  pub main_loop_iterate_for-Waited :
      (fuel timeout : ℕ) (s : S)
      → timeout + longest + longest + 1 < 2 ^ 32
      → (timeout + 1) * rate < fuel
      → (res : Bool × S) × (main_loop_iterate_for p fuel timeout s ≡ some res)
        × Waited p ms (ms s) timeout res
  unfolding main_loop_iterate_for
  main_loop_iterate_for-Waited fuel timeout s small enough =
      let (ticked, on, bounded) = clock.test (p.watchdog_reset s) in
      let (ticked', on', bounded') = clock.kick s in
      let after = (p.should_exit (p.watchdog_reset s)).1 in
      let (above, _) = clock.counts s in
      let whole : (ms s + timeout + 1) * rate ≡ ms s * rate + (timeout + 1) * rate =
        ap (λ n. n * rate) (let e : ms s + timeout + 1 ≡ ms s + (timeout + 1) = omega arith in e)
        ∙ add-mul (ms s) (timeout + 1) rate in
      elim (Bool-cases (p.should_exit (p.watchdog_reset s)).0) [
        | inl exit ↦
            rw exit
              ((true, after), refl, inr (refl, (p.watchdog_reset s, ap (λ b. (b, after)) exit)))
        | inr stay ↦
            rw (stay, clock.reads s)
              (iterate-Waited ((ms s + timeout + 1) * rate) fuel timeout (ms s)
                (iwdg_normal_time_ms / 2) after (before_last (ms s) timeout) small
                (omega (arith, on, on')) (omega (arith, bounded, bounded')) (omega (arith, enough))
                (omega (arith, whole, above, ticked, ticked', enough)))
      ]
