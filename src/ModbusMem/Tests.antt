-- ===== src/ModbusMem/Tests.antt =====
-- Runs of core/modbus_mem.c on a small bus, and the theorems about it applied there.
use osm_firmware_v.Base.{◌≡◌, ◌≢◌, refl, arith, true, List, [], ◌∷◌, some}
use osm_firmware_v.Modbus.{RegType, ByteOrder, WordOrder}
use osm_firmware_v.ModbusMem.{free_block, Settings, Bus, add_device, get_reg}
use osm_firmware_v.ModbusMem.Edit.{dev_add_reg, dev_del, reg_del, bus_init}
use osm_firmware_v.ModbusMem.Registry.{
  Registry, by_id, by_name, change, first_dev, regs_at, unit_at, first_reg, registry_del,
  registry_del_reg, register_named,
}
use osm_firmware_v.ModbusMem.Rep.{Rep, blocks_from}
use osm_firmware_v.ModbusMem.Find.{get_reg_lem}
use osm_firmware_v.ModbusMem.Place.{Stands, by_id-Stands}
use osm_firmware_v.ModbusMem.RegPlace.{known_reg, register_named-known_reg}
use osm_firmware_v.Base.Strings.{strlen, same_chars}
use osm_firmware_v.ModbusMem.Add.{Holds, device_added, registry_add, add_device_lem}
use osm_firmware_v.ModbusMem.AddReg.{register_added, registry_add_reg, dev_add_reg_lem}
use osm_firmware_v.ModbusMem.Del.{dev_del_lem}
use osm_firmware_v.ModbusMem.DelReg.{Results, reg_del_lem}
use osm_firmware_v.ModbusMem.Init.{empty_registry}
use osm_firmware_v.ModbusMem.Client.{
  Call, add_dev, add_reg, run, registry_run, registry_step, run-bus_init, dev_del-add_device,
}

-- The settings of a new bus, and a memory that no version of the program has written.
abbrev settings : Settings
settings = record {
  version = 2;
  binary_protocol = 0;
  databits = 8;
  stopbits = 1;
  parity = 0;
  dev_count = 0;
  baudrate = 9600;
}

abbrev blank : Bus
blank = record {
  settings = record settings { version = 0 };
  first_dev_offset = 0;
  first_free_offset = 0;
  blocks = λ p. free_block 0;
}

blank_old : blank.settings.version ≢ 2
blank_old e = omega (arith, e)

-- Devices "A" and "B", with the registers "x" and "y" of "A".
abbrev calls : List Call
calls =
    add_dev 1 (65 ∷ []) ByteOrder.msb WordOrder.msw
    ∷ add_reg 1 (120 ∷ []) RegType.u16 3 22
    ∷ add_dev 2 (66 ∷ []) ByteOrder.lsb WordOrder.lsw
    ∷ add_reg 1 (121 ∷ []) RegType.u32 4 23
    ∷ []

run_example : Holds (run calls (bus_init settings blank)) (registry_run calls empty_registry)
run_example = run-bus_init calls settings blank blank_old

-- The bus and the registry after these calls.
abbrev full : Bus
full = (run-bus_init calls settings blank blank_old).0

abbrev reg : Registry
reg = (registry_run calls empty_registry).1

full_rep : Rep full reg
full_rep = (run-bus_init calls settings blank blank_old).2

replies_calls : (registry_run calls empty_registry).0 ≡ true ∷ true ∷ true ∷ true ∷ []
unfolding registry_run registry_step registry_add device_added registry_add_reg register_added by_id
    by_name change first_dev regs_at unit_at first_reg blocks_from strlen same_chars
replies_calls = refl

place_of_a : by_id 1 reg.devices ≡ 16
unfolding registry_run registry_step registry_add device_added registry_add_reg register_added by_id
    by_name change first_dev regs_at unit_at first_reg blocks_from strlen same_chars
place_of_a = refl

place_of_x : register_named (120 ∷ []) reg.devices ≡ 32
unfolding registry_run registry_step registry_add device_added registry_add_reg register_added by_id
    by_name change first_dev regs_at unit_at first_reg blocks_from strlen same_chars register_named
place_of_x = refl

a_Stands : Stands (by_id 1 reg.devices) reg.devices
a_Stands = by_id-Stands 1 reg.devices (λ e. absurd (omega (arith, place_of_a, e)))

x_known : known_reg (register_named (120 ∷ []) reg.devices) reg.devices ≡ true
x_known =
    register_named-known_reg (120 ∷ []) reg.devices (λ e. absurd (omega (arith, place_of_x, e)))

get_reg_example : get_reg full (120 ∷ []) ≡ some (register_named (120 ∷ []) reg.devices)
get_reg_example = get_reg_lem full reg (120 ∷ []) full_rep

add_device_example :
    Holds
      (add_device 3 (67 ∷ []) ByteOrder.msb WordOrder.lsw full)
      (registry_add 3 (67 ∷ []) ByteOrder.msb WordOrder.lsw reg)
add_device_example = add_device_lem 3 (67 ∷ []) ByteOrder.msb WordOrder.lsw full reg full_rep

dev_add_reg_example :
    Holds
      (dev_add_reg (by_id 1 reg.devices) (122 ∷ []) RegType.i16 3 24 full)
      (registry_add_reg (by_id 1 reg.devices) (122 ∷ []) RegType.i16 3 24 reg)
dev_add_reg_example =
    dev_add_reg_lem (by_id 1 reg.devices) (122 ∷ []) RegType.i16 3 24 full reg a_Stands full_rep

dev_del_example :
    (bus : Bus) × (dev_del (by_id 1 reg.devices) full ≡ some bus)
    × Rep bus (registry_del (by_id 1 reg.devices) reg)
dev_del_example = dev_del_lem (by_id 1 reg.devices) full reg a_Stands full_rep

reg_del_example :
    Results
      (reg_del (register_named (120 ∷ []) reg.devices) full)
      (registry_del_reg (register_named (120 ∷ []) reg.devices) reg)
reg_del_example = reg_del_lem (register_named (120 ∷ []) reg.devices) full reg x_known full_rep

-- The same bus with a device "C".
added :
    add_device 3 (67 ∷ []) ByteOrder.msb WordOrder.lsw full
    ≡ some (80, (add_device_lem 3 (67 ∷ []) ByteOrder.msb WordOrder.lsw full reg full_rep).0)
unfolding registry_run registry_step registry_add device_added registry_add_reg register_added by_id
    by_name change first_dev regs_at unit_at first_reg blocks_from strlen same_chars register_named
added = (add_device_lem 3 (67 ∷ []) ByteOrder.msb WordOrder.lsw full reg full_rep).1

dev_del-add_device_example :
    (bus : Bus) × (dev_del 80
        (add_device_lem 3 (67 ∷ []) ByteOrder.msb WordOrder.lsw full reg full_rep).0
      ≡ some bus)
    × Rep bus reg
dev_del-add_device_example =
    dev_del-add_device 3 (67 ∷ []) ByteOrder.msb WordOrder.lsw full
      (add_device_lem 3 (67 ∷ []) ByteOrder.msb WordOrder.lsw full reg full_rep).0 reg 80 full_rep
      added (λ e. absurd (omega (arith, e)))
