-- ===== src/ModbusMem/Among.antt =====
-- core/modbus_mem.c: a device among the others of a bus that holds a registry.
use osm_firmware_v.Base.{ℕ, ◌+◌, ◌<◌, ◌≡◌, ◌≢◌, arith, List, [], ◌∷◌, ◌++◌, length, length-append}
use osm_firmware_v.ModbusMem.{fuel, dev_block, Bus}
use osm_firmware_v.ModbusMem.Registry.{Device}
use osm_firmware_v.ModbusMem.Chain.{
  count-append, all_places-append, Chain-split, length_places, count, count_self, all_places, first,
  Chain,
}
use osm_firmware_v.ModbusMem.Rep.{
  dev_slot, reg_kind, reg_places, dev_kind, dev_places, free_places, Rep, once,
}

pub length-dev_places :
    (xs ys : List Device)
    → length (dev_places (xs ++ ys)) ≡ length (dev_places xs) + length (dev_places ys)
unfolding all_places
length-dev_places [] ys = omega arith
length-dev_places (x ∷ xs) ys = omega (
  arith,
  length-dev_places xs ys,
  length-append (reg_places x.regs) (dev_places (xs ++ ys)),
  length-append (reg_places x.regs) (dev_places xs),
)

-- A device among the others.
module _ (bus : Bus) (pre : List Device) (d : Device) (post : List Device) (us : List ℕ)
    (rep : Rep bus (record { devices = pre ++ d ∷ post; unused = us })) where
  pub split_count :
      (a : ℕ)
      → count a (dev_places (pre ++ d ∷ post))
        ≡ count a (dev_places pre)
          + (count a (d.at ∷ reg_places d.regs) + count a (dev_places post))
  unfolding all_places
  split_count a = omega (
    arith,
    all_places-append dev_kind pre (d ∷ post) a,
    count-append a (d.at ∷ reg_places d.regs) (dev_places post),
  )

  pub split-Chain : Chain dev_kind bus.blocks pre d.at × Chain dev_kind bus.blocks (d ∷ post) 0
  unfolding first
  split-Chain = Chain-split dev_kind bus.blocks pre (d ∷ post) 0 rep.dev_chain

  pub device_not_null : d.at ≢ 0
  unfolding Chain
  device_not_null = split-Chain.1.0

  pub device_cell : bus.blocks d.at ≡ dev_block (dev_slot d (first dev_kind post 0))
  unfolding Chain
  device_cell = split-Chain.1.1.0

  pub device_regs : Chain reg_kind bus.blocks d.regs 0
  unfolding Chain
  device_regs = split-Chain.1.1.1

  pub devices_after : Chain dev_kind bus.blocks post 0
  unfolding Chain
  devices_after = split-Chain.1.2

  -- Its block is in no other use.
  pub device_alone :
      count d.at (dev_places pre)
        + count d.at (reg_places d.regs)
        + count d.at (dev_places post)
        + count d.at (free_places us)
      ≡ 0
  device_alone = omega (
    arith,
    once bus (record { devices = pre ++ d ∷ post; unused = us }) rep d.at,
    split_count d.at,
    count_self d.at (reg_places d.regs),
  )

  pub few_registers : length d.regs < fuel
  unfolding all_places
  few_registers = omega (
    arith,
    rep.total,
    length_places reg_kind d.regs (λ r. omega arith),
    length-dev_places pre (d ∷ post),
    length-append (reg_places d.regs) (dev_places post),
  )
