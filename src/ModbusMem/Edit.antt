-- ===== src/ModbusMem/Edit.antt =====
-- core/modbus_mem.c: registers are added, registers and devices removed, and the bus is set up.
use osm_firmware_v.Base.{
  ℕ, zero, suc, ◌+◌, ◌*◌, Bool, true, false, not, ◌||◌, List, Option, none, some, ltb, ◌==◌,
  if◌then◌else◌,
}
use osm_firmware_v.Base.Strings.{strlen}
use osm_firmware_v.Modbus.{RegType, reg_invalid}
use osm_firmware_v.Modbus.Send.{read_holding, read_input}
use osm_firmware_v.ModbusMem.{
  RegSlot, DevSlot, Block, free_block, dev_block, reg_block, write, Settings, Bus, as_dev, as_reg,
  modbus_free, allocate_block, dev_get_reg_by_name, get_device_by_id, field, fuel, name_len,
  block_count, block_size, blob_version,
}

-- The new register at `p`, in front of the others of the device at `dev`.
unfoldable pub link_register : ℕ → DevSlot → List ℕ → RegType → ℕ → ℕ → ℕ → Bus → Bus
link_register dev d name type func reg_addr p bus = record bus {
  blocks =
      write
        (write bus.blocks p (
          reg_block (record {
            name = field name;
            reg = record {
              value_data = 0;
              type = type;
              func = func;
              value_state = reg_invalid;
              reg_addr = reg_addr;
              unit_id = d.dev.unit_id;
            };
            next_reg_offset = d.first_reg_offset;
          })))
        dev (dev_block (record d { first_reg_offset = p }));
}

-- osm_modbus_dev_add_reg behind its tests.
unfoldable pub add_new_register : ℕ → List ℕ → RegType → ℕ → ℕ → Bus → Option (Bool × Bus)
add_new_register dev name type func reg_addr bus = elim (allocate_block bus) [
  | none ↦ none
  | some (p, bus') ↦ if p == 0 then some (false, bus') else elim (as_dev (bus'.blocks dev)) [
    | none ↦ none
    | some d ↦ some (true, link_register dev d name type func reg_addr p bus')
  ]
]

-- osm_modbus_dev_add_reg
unfoldable pub dev_add_reg : ℕ → List ℕ → RegType → ℕ → ℕ → Bus → Option (Bool × Bus)
dev_add_reg dev name type func reg_addr bus =
    if dev == 0 || ltb name_len (strlen name) || not (func == read_holding || func == read_input)
    then some (false, bus)
    else elim (dev_get_reg_by_name bus dev name) [
      | none ↦ none
      | some q ↦
          if not (q == 0)
          then some (false, bus)
          else add_new_register dev name type func reg_addr bus
    ]

-- The first loop of osm_modbus_dev_del: the registers from `r` are freed.
unfoldable pub free_registers : ℕ → ℕ → Bus → Option Bus
free_registers zero r bus = none
free_registers (suc k) r bus = if r == 0 then some bus else elim (as_reg (bus.blocks r)) [
  | none ↦ none
  | some s ↦ free_registers k s.next_reg_offset (modbus_free r bus)
]

-- The second: `mem_dev` goes along the devices to the one before `dev`.
unfoldable pub unlink_dev : ℕ → ℕ → ℕ → Bus → Option Bus
unlink_dev zero mem_dev dev bus = none
unlink_dev (suc k) mem_dev dev bus =
    let m' = if mem_dev == 0 then none else as_dev (bus.blocks mem_dev) in
    elim m' [
      | none ↦ none
      | some m ↦
          let rest = unlink_dev k m.next_dev_offset dev bus in
          if m.next_dev_offset == 0
          then some bus
          else (if m.next_dev_offset == dev
              then elim (as_dev (bus.blocks dev)) [
                | none ↦ none
                | some d ↦ some (
                    modbus_free dev (record bus {
                      blocks =
                          write bus.blocks mem_dev
                            (dev_block (record m { next_dev_offset = d.next_dev_offset }));
                    }))
              ]
              else rest)
    ]

-- osm_modbus_dev_del behind its first loop.
unfoldable pub remove_dev : ℕ → Bus → Option Bus
remove_dev dev bus =
    if bus.first_dev_offset == dev
    then elim (as_dev (bus.blocks dev)) [
      | none ↦ none
      | some d ↦ some (modbus_free dev (record bus { first_dev_offset = d.next_dev_offset }))
    ]
    else unlink_dev fuel bus.first_dev_offset dev bus

-- osm_modbus_dev_del
unfoldable pub dev_del : ℕ → Bus → Option Bus
dev_del dev bus = if dev == 0 then some bus else elim (as_dev (bus.blocks dev)) [
  | none ↦ none
  | some d ↦ elim (free_registers fuel d.first_reg_offset bus) [
    | none ↦ none
    | some bus' ↦ remove_dev dev bus'
  ]
]

-- The loop of osm_modbus_reg_del: `dev_reg` goes along the registers to the one before `reg`.
unfoldable pub unlink_reg : ℕ → ℕ → ℕ → Bus → Option Bus
unlink_reg zero dev_reg reg bus = none
unlink_reg (suc k) dev_reg reg bus =
    if dev_reg == 0 then some bus else elim (as_reg (bus.blocks dev_reg)) [
      | none ↦ none
      | some s ↦
          let rest = unlink_reg k s.next_reg_offset reg bus in
          if s.next_reg_offset == reg
          then elim (as_reg (bus.blocks reg)) [
            | none ↦ none
            | some t ↦ some (
                modbus_free reg (record bus {
                  blocks =
                      write bus.blocks dev_reg
                        (reg_block (record s { next_reg_offset = t.next_reg_offset }));
                }))
          ]
          else rest
    ]

-- osm_modbus_reg_del in the device at `dev`.
unfoldable pub reg_del_in : ℕ → ℕ → RegSlot → Bus → Option Bus
reg_del_in dev reg s bus = if dev == 0 then some bus else elim (as_dev (bus.blocks dev)) [
  | none ↦ none
  | some d ↦
      if d.first_reg_offset == reg
      then some (
          modbus_free reg (record bus {
            blocks =
                write bus.blocks dev
                  (dev_block (record d { first_reg_offset = s.next_reg_offset }));
          }))
      else unlink_reg fuel d.first_reg_offset reg bus
]

-- osm_modbus_reg_del; modbus_reg_get_dev looks the device up by the register's unit.
unfoldable pub reg_del : ℕ → Bus → Option Bus
reg_del reg bus = if reg == 0 then some bus else elim (as_reg (bus.blocks reg)) [
  | none ↦ none
  | some s ↦ elim (get_device_by_id bus s.reg.unit_id) [
    | none ↦ none
    | some dev ↦ reg_del_in dev reg s bus
  ]
]

-- The free blocks of an empty bus: each leads to the next, the last to none.
abbrev pub empty_block : ℕ → Block
empty_block p =
    if ltb (block_count * block_size) (p + block_size)
    then free_block 0
    else free_block (p + block_size)

-- osm_modbus_bus_init, with the settings of a new bus.
unfoldable pub bus_init : Settings → Bus → Bus
bus_init fresh bus = if bus.settings.version == blob_version then bus else record {
  settings = fresh;
  first_dev_offset = 0;
  first_free_offset = block_size;
  blocks = empty_block;
}
