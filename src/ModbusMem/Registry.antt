-- ===== src/ModbusMem/Registry.antt =====
-- What core/modbus_mem.c promises: a registry of devices with their registers, the newest first, and
-- a stack of free places. It knows nothing of links between blocks.
use osm_firmware_v.Base.{ℕ, Bool, true, false, not, ◌||◌, List, [], ◌∷◌, ltb, ◌==◌, if◌then◌else◌}
use osm_firmware_v.Base.Strings.{strlen, same_chars}
use osm_firmware_v.Modbus.{Reg}
use osm_firmware_v.Modbus.Receive.{Dev}
use osm_firmware_v.ModbusMem.{name_len}

pub record Register : Type 0 where
  pub at : ℕ
  pub name : List ℕ
  pub reg : Reg

pub record Device : Type 0 where
  pub at : ℕ
  pub name : List ℕ
  pub dev : Dev
  pub regs : List Register

pub record Registry : Type 0 where
  pub devices : List Device
  pub unused : List ℕ

-- The place of the first device, or register, that passes a test, or 0.
unfoldable pub first_dev : (Device → Bool) → List Device → ℕ
first_dev test [] = 0
first_dev test (d ∷ ds) = if test d then d.at else first_dev test ds

unfoldable pub first_reg : (Register → Bool) → List Register → ℕ
first_reg test [] = 0
first_reg test (r ∷ rs) = if test r then r.at else first_reg test rs

abbrev pub named : List ℕ → List Register → ℕ
named name rs =
    if ltb name_len (strlen name) then 0 else first_reg (λ r. same_chars name r.name name_len) rs

unfoldable pub by_id : ℕ → List Device → ℕ
by_id unit_id ds = first_dev (λ d. d.dev.unit_id == unit_id) ds

unfoldable pub by_name : List ℕ → List Device → ℕ
by_name name ds =
    if ltb name_len (strlen name) then 0 else first_dev (λ d. same_chars name d.name name_len) ds

-- A register of any device.
unfoldable pub register_named : List ℕ → List Device → ℕ
register_named name [] = 0
register_named name (d ∷ ds) =
    if not (named name d.regs == 0) then named name d.regs else register_named name ds

-- The registers, and the unit, of the device at a place.
unfoldable pub regs_at : ℕ → List Device → List Register
regs_at p [] = []
regs_at p (d ∷ ds) = if d.at == p then d.regs else regs_at p ds

unfoldable pub unit_at : ℕ → List Device → ℕ
unit_at p [] = 0
unit_at p (d ∷ ds) = if d.at == p then d.dev.unit_id else unit_at p ds

-- A change to the device at a place.
unfoldable pub change : ℕ → (Device → Device) → List Device → List Device
change p f [] = []
change p f (d ∷ ds) = if d.at == p then f d ∷ ds else d ∷ change p f ds

unfoldable pub drop_reg : ℕ → List Register → List Register
drop_reg p [] = []
drop_reg p (r ∷ rs) = if r.at == p then rs else r ∷ drop_reg p rs

unfoldable pub has_reg : ℕ → List Register → Bool
has_reg p [] = false
has_reg p (r ∷ rs) = if r.at == p then true else has_reg p rs

unfoldable pub drop_dev : ℕ → List Device → List Device
drop_dev p [] = []
drop_dev p (d ∷ ds) = if d.at == p then ds else d ∷ drop_dev p ds

-- The places of the registers come onto the stack of free places.
unfoldable pub released : List Register → List ℕ → List ℕ
released [] us = us
released (r ∷ rs) us = released rs (r.at ∷ us)

-- What osm_modbus_dev_del does to the registry, for the device at `p`.
unfoldable pub registry_del : ℕ → Registry → Registry
registry_del p reg = if p == 0 then reg else record {
  devices = drop_dev p reg.devices;
  unused = p ∷ released (regs_at p reg.devices) reg.unused;
}

-- The unit of the register at `p`, in its device and in any.
unfoldable pub unit_in : ℕ → List Register → ℕ
unit_in p [] = 0
unit_in p (r ∷ rs) = if r.at == p then r.reg.unit_id else unit_in p rs

unfoldable pub reg_unit : ℕ → List Device → ℕ
reg_unit p [] = 0
reg_unit p (d ∷ ds) = if has_reg p d.regs then unit_in p d.regs else reg_unit p ds

abbrev pub without_reg : ℕ → Device → Device
without_reg p d = record d { regs = drop_reg p d.regs }

-- What osm_modbus_reg_del does to the registry, in the device at `q`.
unfoldable pub registry_del_in : ℕ → ℕ → Registry → Registry
registry_del_in q p reg =
    if q == 0 || not (has_reg p (regs_at q reg.devices))
    then reg
    else record { devices = change q (without_reg p) reg.devices; unused = p ∷ reg.unused }

-- The device is the first one with the unit of the register at `p`.
unfoldable pub registry_del_reg : ℕ → Registry → Registry
registry_del_reg p reg =
    if p == 0 then reg else registry_del_in (by_id (reg_unit p reg.devices) reg.devices) p reg
