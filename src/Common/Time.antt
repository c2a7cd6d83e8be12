-- ===== src/Common/Time.antt =====
-- osm_since_boot_delta, on which every timeout of the firmware rests.
use osm_firmware_v.Base.{ℕ, ◌+◌, ◌-◌, ◌^◌, ◌<◌, ◌≡◌, arith, ltb, if◌then◌else◌}
use osm_firmware_v.Base.Words.{add32}
use osm_firmware_v.Common.{since_boot_delta}

-- For a boot time and an elapsed time that are words, osm_since_boot_delta of the time then and
-- the boot time is the elapsed time, or one less if the counter has wrapped in between.
pub since_boot_delta_lem :
    (older elapsed : ℕ)
    → older < 2 ^ 32
    → elapsed < 2 ^ 32
    → since_boot_delta (add32 older elapsed) older
      ≡ (if ltb (older + elapsed) (2 ^ 32) then elapsed else elapsed - 1)
unfolding since_boot_delta
since_boot_delta_lem older elapsed h k = ground arith
