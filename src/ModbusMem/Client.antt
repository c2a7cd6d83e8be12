-- ===== src/ModbusMem/Client.antt =====
-- core/modbus_mem.c as its commands use it (and core/modbus_measurements.c, without the measurements
-- themselves): any sequence of devices and registers added and deleted.
use osm_firmware_v.Base.{
  ℕ, Bool, true, false, not, List, [], ◌∷◌, Option, none, some, ◌==◌, if◌then◌else◌, ◌≡◌, ◌≢◌, inl,
  inr, refl, sym, ap, subst, ◌∙◌, ltb, ◌||◌, ne→==, ==_refl, Bool-cases, ==→ne,
}
use mathlib.Core.Option
use mathlib.Core.Option.{some-injective}
use osm_firmware_v.Modbus.{RegType, ByteOrder, WordOrder}
use osm_firmware_v.ModbusMem.Init.{empty_registry, bus_init_lem}
use osm_firmware_v.Base.Strings.{strlen}
use osm_firmware_v.ModbusMem.{
  Settings, name_len, blob_version, Bus, add_device, get_device_by_id, get_device_by_name, get_reg,
}
use osm_firmware_v.ModbusMem.Edit.{bus_init, dev_add_reg, dev_del, reg_del}
use osm_firmware_v.ModbusMem.Registry.{
  Registry, Device, drop_dev, regs_at, released, by_id, by_name, register_named, registry_del,
  registry_del_reg,
}
use osm_firmware_v.ModbusMem.Rep.{Rep}
use osm_firmware_v.ModbusMem.Find.{get_device_by_id_lem, get_device_by_name_lem, get_reg_lem}
use osm_firmware_v.ModbusMem.Place.{Stands, by_id-Stands, by_name-Stands}
use osm_firmware_v.ModbusMem.RegPlace.{register_named-known_reg}
use osm_firmware_v.ModbusMem.Add.{new_device, device_added, Holds, registry_add, add_device_lem}
use osm_firmware_v.ModbusMem.AddReg.{registry_add_reg, dev_add_reg_lem}
use osm_firmware_v.ModbusMem.Del.{dev_del_lem}
use osm_firmware_v.ModbusMem.DelReg.{reg_del_lem}

pub data Call : Type 0 where
  add_dev : ℕ → List ℕ → ByteOrder → WordOrder → Call
  add_reg : ℕ → List ℕ → RegType → ℕ → ℕ → Call
  del_dev : List ℕ → Call
  del_reg : List ℕ → Call

-- Whether a place was given.
abbrev pub given : ℕ × Bus → Bool × Bus
given (p, bus) = (not (p == 0), bus)

-- _modbus_add_dev_cb, _modbus_add_reg_cb, osm_modbus_measurement_del_dev and
-- osm_modbus_measurement_del_reg on the bus. The reply to a deletion is whether the name was found;
-- what the measurements of the registers add to it is left out.
unfoldable pub step : Call → Bus → Option (Bool × Bus)
step (add_dev unit_id name byte_order word_order) bus =
    Option.map given (add_device unit_id name byte_order word_order bus)
step (add_reg unit_id name type func reg_addr) bus = elim (get_device_by_id bus unit_id) [
  | none ↦ none
  | some p ↦ if p == 0 then some (false, bus) else dev_add_reg p name type func reg_addr bus
]
step (del_dev name) bus = elim (get_device_by_name bus name) [
  | none ↦ none
  | some p ↦ if p == 0 then some (false, bus) else Option.map (λ bus'. (true, bus')) (dev_del p bus)
]
step (del_reg name) bus = elim (get_reg bus name) [
  | none ↦ none
  | some p ↦ if p == 0 then some (false, bus) else Option.map (λ bus'. (true, bus')) (reg_del p bus)
]

unfoldable pub run : List Call → Bus → Option (List Bool × Bus)
run [] bus = some ([], bus)
run (c ∷ cs) bus = elim (step c bus) [
  | none ↦ none
  | some (reply, bus') ↦ Option.map (λ r. (reply ∷ r.0, r.1)) (run cs bus')
]

-- The same calls on the registry.
unfoldable pub registry_step : Call → Registry → Bool × Registry
registry_step (add_dev unit_id name byte_order word_order) reg =
    let (p, reg') = registry_add unit_id name byte_order word_order reg in (not (p == 0), reg')
registry_step (add_reg unit_id name type func reg_addr) reg =
    if by_id unit_id reg.devices == 0
    then (false, reg)
    else registry_add_reg (by_id unit_id reg.devices) name type func reg_addr reg
registry_step (del_dev name) reg =
    if by_name name reg.devices == 0
    then (false, reg)
    else (true, registry_del (by_name name reg.devices) reg)
registry_step (del_reg name) reg =
    if register_named name reg.devices == 0
    then (false, reg)
    else (true, registry_del_reg (register_named name reg.devices) reg)

unfoldable pub registry_run : List Call → Registry → List Bool × Registry
registry_run [] reg = ([], reg)
registry_run (c ∷ cs) reg =
    let (reply, reg') = registry_step c reg in
    let (replies, reg'') = registry_run cs reg' in (reply ∷ replies, reg'')

pub step_lem :
    (c : Call) (bus : Bus) (reg : Registry) → Rep bus reg → Holds (step c bus) (registry_step c reg)
unfolding step registry_step
step_lem (add_dev unit_id name byte_order word_order) bus reg rep =
    let (bus', done, rep') = add_device_lem unit_id name byte_order word_order bus reg rep in
    (bus', rw (done) refl, rep')
step_lem (add_reg unit_id name type func reg_addr) bus reg rep =
    elim (Bool-cases (by_id unit_id reg.devices == 0)) [
      | inl no_device ↦
          rw (step, get_device_by_id_lem bus reg rep unit_id, no_device) (bus, refl, rep)
      | inr device ↦
          rw (step, get_device_by_id_lem bus reg rep unit_id, device)
            (dev_add_reg_lem (by_id unit_id reg.devices) name type func reg_addr bus reg
              (by_id-Stands unit_id reg.devices (==→ne (by_id unit_id reg.devices) 0 device)) rep)
    ]
step_lem (del_dev name) bus reg rep = elim (Bool-cases (by_name name reg.devices == 0)) [
  | inl no_device ↦ rw (step, get_device_by_name_lem bus reg rep name, no_device) (bus, refl, rep)
  | inr device ↦
      let (bus', done, rep') =
        dev_del_lem (by_name name reg.devices) bus reg
          (by_name-Stands name reg.devices (==→ne (by_name name reg.devices) 0 device)) rep in
      rw (step, get_device_by_name_lem bus reg rep name, device, done) (bus', refl, rep')
]
step_lem (del_reg name) bus reg rep = elim (Bool-cases (register_named name reg.devices == 0)) [
  | inl no_register ↦ rw (step, get_reg_lem bus reg name rep, no_register) (bus, refl, rep)
  | inr register ↦
      let (bus', done, rep') =
        reg_del_lem (register_named name reg.devices) bus reg
          (register_named-known_reg name reg.devices
            (==→ne (register_named name reg.devices) 0 register))
          rep in
      rw (step, get_reg_lem bus reg name rep, register, done) (bus', refl, rep')
]

pub run_lem :
    (cs : List Call) (bus : Bus) (reg : Registry)
    → Rep bus reg
    → Holds (run cs bus) (registry_run cs reg)
unfolding run registry_run
run_lem [] bus reg rep = (bus, refl, rep)
run_lem (c ∷ cs) bus reg rep =
    let (bus', done, rep') = step_lem c bus reg rep in
    let (bus'', rest, rep'') = run_lem cs bus' (registry_step c reg).1 rep' in
    (bus'', rw (run, done, rest) refl, rep'')

-- For any list of calls that add and delete devices and registers by name, from
-- osm_modbus_bus_init on a memory of another version: every call has a result (no null or
-- ill-typed block is followed, and the fuel is enough), the replies are those of the abstract
-- registry, and the memory at the end holds that registry, with each of the 63 blocks in use
-- exactly once, as a device, as a register or as a free block.
pub run-bus_init :
    (cs : List Call) (fresh : Settings) (bus : Bus)
    → bus.settings.version ≢ blob_version
    → Holds (run cs (bus_init fresh bus)) (registry_run cs empty_registry)
run-bus_init cs fresh bus old =
    run_lem cs (bus_init fresh bus) empty_registry (bus_init_lem fresh bus old)

-- A device that was added can be deleted, which gives the registry as it was.
abbrev Undone : ℕ × Registry → Registry → Type 0
Undone (p, added) reg = Stands p added.devices × (registry_del p added ≡ reg)

pub device_added-Undone :
    (unit_id : ℕ) (name : List ℕ) (byte_order : ByteOrder) (word_order : WordOrder)
    (ds : List Device) (us : List ℕ)
    → (device_added unit_id name byte_order word_order ds us).0 ≢ 0
    → Undone
        (device_added unit_id name byte_order word_order ds us)
        (record { devices = ds; unused = us })
unfolding device_added registry_del drop_dev regs_at released
device_added-Undone unit_id name byte_order word_order ds [] ne = absurd (ne refl)
device_added-Undone unit_id name byte_order word_order ds (p ∷ ps) ne = (
  ([], new_device unit_id name byte_order word_order p, ds, refl, refl),
  rw (ne→== p 0 ne, ==_refl p) refl,
)

pub registry_add-Undone :
    (unit_id : ℕ) (name : List ℕ) (byte_order : ByteOrder) (word_order : WordOrder) (reg : Registry)
    → (registry_add unit_id name byte_order word_order reg).0 ≢ 0
    → Undone (registry_add unit_id name byte_order word_order reg) reg
unfolding registry_add
registry_add-Undone unit_id name byte_order word_order reg ne =
    elim (Bool-cases
      (unit_id == 0 || ltb name_len (strlen name) || not (by_name name reg.devices == 0))) [
        | inl refused ↦ absurd (ne (rw (refused) refl))
        | inr added ↦ rw (added) (
            device_added-Undone unit_id name byte_order word_order reg.devices reg.unused
              (rw (added) at ne))
      ]

-- If the bus holds a registry and osm_modbus_add_device gives a device, then osm_modbus_dev_del
-- of it has a result, which holds the registry that the bus held before.
pub dev_del-add_device :
    (unit_id : ℕ) (name : List ℕ) (byte_order : ByteOrder) (word_order : WordOrder) (bus bus' : Bus)
    (reg : Registry) (p : ℕ)
    → Rep bus reg
    → add_device unit_id name byte_order word_order bus ≡ some (p, bus')
    → p ≢ 0
    → (bus'' : Bus) × (dev_del p bus' ≡ some bus'') × Rep bus'' reg
dev_del-add_device unit_id name byte_order word_order bus bus' reg p rep added ne =
    let (bus₀, done, rep₀) = add_device_lem unit_id name byte_order word_order bus reg rep in
    let result : ℕ × Registry = registry_add unit_id name byte_order word_order reg in
    let same : (result.0, bus₀) ≡ (p, bus') = some-injective _ _ (sym done ∙ added) in
    let (stands, undone) =
      registry_add-Undone unit_id name byte_order word_order reg
        (λ z. ne (sym (ap (λ r. r.0) same) ∙ z)) in
    let (bus'', deleted, rep'') = dev_del_lem result.0 bus₀ result.1 stands rep₀ in
    (bus'', ap (λ r. dev_del r.0 r.1) (sym same) ∙ deleted, subst (Rep bus'') undone rep'')
