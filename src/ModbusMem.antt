-- ===== src/ModbusMem.antt =====
-- core/modbus_mem.c: the devices and registers of the Modbus bus, in one persistent block of memory.
-- A block is named by its offset from the bus, as in the code; offset 0, the bus itself, is the null
-- pointer. Each block is free, a device or a register. To use a block as another kind than it is,
-- or to follow a null pointer, is no result, as is a loop that runs out of fuel.
pub mod Chain
pub mod Edit
pub mod Registry
pub mod Rep
pub mod FreePlace
pub mod Among
pub mod Find
pub mod Add
pub mod Place
pub mod AddReg
pub mod Release
pub mod Unlink
pub mod Del
pub mod RegPlace
pub mod UnlinkReg
pub mod RegChange
pub mod DelRegIn
pub mod DelReg
pub mod Init
pub mod Client
mod Tests
use osm_firmware_v.Base.{
  ℕ, zero, suc, ◌+◌, ◌-◌, ◌*◌, ◌/◌, ◌%◌, ◌^◌, Bool, true, false, not, ◌&&◌, ◌||◌, List, [], ◌∷◌,
  ◌++◌, Option, none, some, ltb, leb, ◌==◌, if◌then◌else◌, take, replicate,
}
use osm_firmware_v.Base.Strings.{strlen, same_chars}
use osm_firmware_v.Modbus.{RegType, ByteOrder, WordOrder, Reg, reg_invalid}
use osm_firmware_v.Modbus.Send.{read_holding, read_input}
use osm_firmware_v.Modbus.Receive.{Dev}

-- OSM_MODBUS_BLOCKS, OSM_MODBUS_BLOCK_SIZE, OSM_MODBUS_NAME_LEN and OSM_MODBUS_BLOB_VERSION
abbrev pub block_count : ℕ
block_count = 63

abbrev pub block_size : ℕ
block_size = 16

abbrev pub name_len : ℕ
name_len = 4

abbrev pub blob_version : ℕ
blob_version = 2

-- `osm_modbus_reg_t`, `osm_modbus_dev_t` and `osm_modbus_free_t`
pub record RegSlot : Type 0 where
  pub name : List ℕ
  pub reg : Reg
  pub next_reg_offset : ℕ

pub record DevSlot : Type 0 where
  pub name : List ℕ
  pub dev : Dev
  pub first_reg_offset : ℕ
  pub next_dev_offset : ℕ

pub data Block : Type 0 where
  free_block : ℕ → Block
  dev_block : DevSlot → Block
  reg_block : RegSlot → Block

abbrev pub Memory : Type 0
Memory = ℕ → Block

abbrev pub write : Memory → ℕ → Block → Memory
write h a b i = if i == a then b else h i

-- The settings in `osm_modbus_bus_t`.
pub record Settings : Type 0 where
  pub version : ℕ
  pub binary_protocol : ℕ
  pub databits : ℕ
  pub stopbits : ℕ
  pub parity : ℕ
  pub dev_count : ℕ
  pub baudrate : ℕ

-- `osm_modbus_bus_t`
pub record Bus : Type 0 where
  pub settings : Settings
  pub first_dev_offset : ℕ
  pub first_free_offset : ℕ
  pub blocks : Memory

unfoldable pub as_free : Block → Option ℕ
as_free (free_block n) = some n
as_free _ = none

unfoldable pub as_dev : Block → Option DevSlot
as_dev (dev_block d) = some d
as_dev _ = none

unfoldable pub as_reg : Block → Option RegSlot
as_reg (reg_block r) = some r
as_reg _ = none

-- _modbus_free; the block is zeroed, so without a next free block its `next_free_offset` is 0.
unfoldable pub modbus_free : ℕ → Bus → Bus
modbus_free p bus = record bus {
  first_free_offset = p;
  blocks =
      write bus.blocks p
        (free_block (if not (bus.first_free_offset == 0) then bus.first_free_offset else 0));
}

-- _modbus_allocate_block
unfoldable pub allocate_block : Bus → Option (ℕ × Bus)
allocate_block bus =
    if bus.first_free_offset == 0
    then some (0, bus)
    else elim (as_free (bus.blocks bus.first_free_offset)) [
      | none ↦ none
      | some next ↦ some (bus.first_free_offset, record bus { first_free_offset = next })
    ]

-- The loop over the devices from `p`, to the first that passes a test.
unfoldable pub find_dev : (DevSlot → Bool) → Memory → ℕ → ℕ → Option ℕ
find_dev test h zero p = none
find_dev test h (suc fuel) p = if p == 0 then some 0 else elim (as_dev (h p)) [
  | none ↦ none
  | some d ↦ let rest = find_dev test h fuel d.next_dev_offset in if test d then some p else rest
]

-- The loop over the registers from `p`.
unfoldable pub find_reg : (RegSlot → Bool) → Memory → ℕ → ℕ → Option ℕ
find_reg test h zero p = none
find_reg test h (suc fuel) p = if p == 0 then some 0 else elim (as_reg (h p)) [
  | none ↦ none
  | some r ↦ let rest = find_reg test h fuel r.next_reg_offset in if test r then some p else rest
]

-- Rounds for a loop over devices or registers: one for each block, and the one that ends it.
abbrev pub fuel : ℕ
fuel = block_count + 1

-- osm_modbus_get_device_by_id
unfoldable pub get_device_by_id : Bus → ℕ → Option ℕ
get_device_by_id bus unit_id =
    find_dev (λ d. d.dev.unit_id == unit_id) bus.blocks fuel bus.first_dev_offset

-- osm_modbus_get_device_by_name
unfoldable pub get_device_by_name : Bus → List ℕ → Option ℕ
get_device_by_name bus name =
    if ltb name_len (strlen name)
    then some 0
    else find_dev (λ d. same_chars name d.name name_len) bus.blocks fuel bus.first_dev_offset

-- osm_modbus_dev_get_reg_by_name
unfoldable pub dev_get_reg_by_name : Bus → ℕ → List ℕ → Option ℕ
dev_get_reg_by_name bus dev name =
    if dev == 0 || ltb name_len (strlen name) then some 0 else elim (as_dev (bus.blocks dev)) [
      | none ↦ none
      | some d ↦ find_reg (λ r. same_chars name r.name name_len) bus.blocks fuel d.first_reg_offset
    ]

-- The loop of osm_modbus_get_reg over the devices.
unfoldable pub get_reg_from : Bus → List ℕ → ℕ → ℕ → Option ℕ
get_reg_from bus name zero p = none
get_reg_from bus name (suc k) p = if p == 0 then some 0 else elim (as_dev (bus.blocks p)) [
  | none ↦ none
  | some d ↦
      let rest = get_reg_from bus name k d.next_dev_offset in
      elim (dev_get_reg_by_name bus p name) [
        | none ↦ none
        | some r ↦ if not (r == 0) then some r else rest
      ]
]

-- osm_modbus_get_reg
unfoldable pub get_reg : Bus → List ℕ → Option ℕ
get_reg bus name = get_reg_from bus name fuel bus.first_dev_offset

-- A name of at most four characters in a zeroed field of four.
abbrev pub field : List ℕ → List ℕ
field name = take (strlen name) name ++ replicate (name_len - strlen name) 0

-- The new device at `p`, in front of the others.
unfoldable pub link_device : ℕ → List ℕ → ByteOrder → WordOrder → ℕ → Bus → Bus
link_device unit_id name byte_order word_order p bus = record bus {
  first_dev_offset = p;
  blocks = write bus.blocks p (
      dev_block (record {
        name = field name;
        dev = record {
          unit_id = unit_id % 2 ^ 16;
          byte_order = byte_order;
          word_order = word_order;
        };
        first_reg_offset = 0;
        next_dev_offset = bus.first_dev_offset;
      }));
}

-- osm_modbus_add_device behind its tests.
unfoldable pub add_new_device : ℕ → List ℕ → ByteOrder → WordOrder → Bus → Option (ℕ × Bus)
add_new_device unit_id name byte_order word_order bus = elim (allocate_block bus) [
  | none ↦ none
  | some (p, bus') ↦
      if p == 0
      then some (0, bus')
      else some (p, link_device unit_id name byte_order word_order p bus')
]

-- osm_modbus_add_device
unfoldable pub add_device : ℕ → List ℕ → ByteOrder → WordOrder → Bus → Option (ℕ × Bus)
add_device unit_id name byte_order word_order bus =
    if unit_id == 0 || ltb name_len (strlen name)
    then some (0, bus)
    else elim (get_device_by_name bus name) [
      | none ↦ none
      | some q ↦
          if not (q == 0)
          then some (0, bus)
          else add_new_device unit_id name byte_order word_order bus
    ]
