-- ===== src/ModbusMem/Add.antt =====
-- core/modbus_mem.c: osm_modbus_add_device and osm_modbus_dev_add_reg in the registry.
use osm_firmware_v.Base.{
  ℕ, ◌+◌, ◌%◌, ◌^◌, ◌≡◌, inl, inr, refl, ap, ◌∙◌, arith, not, ◌||◌, List, [], ◌∷◌, Option, some,
  Bool-cases, ◌==◌, ne→==, ltb, if◌then◌else◌,
}
use osm_firmware_v.Base.Strings.{strlen}
use osm_firmware_v.Modbus.{ByteOrder, WordOrder}
use osm_firmware_v.ModbusMem.{
  Block, dev_block, Bus, name_len, field, link_device, add_new_device, add_device,
}
use osm_firmware_v.ModbusMem.Registry.{Device, Registry, by_name}
use osm_firmware_v.ModbusMem.Chain.{write_here, count, all_places, first, Chain, Chain-write}
use osm_firmware_v.ModbusMem.Rep.{dev_slot, dev_kind, dev_places, free_kind, free_places, Rep}
use osm_firmware_v.ModbusMem.FreePlace.{
  allocate_block-some, allocate_block-none, free_not_null, free_rest, free_unowned,
}
use osm_firmware_v.ModbusMem.Find.{get_device_by_name_lem}

-- A new device in front of the others, in the first free place.
abbrev pub new_device : ℕ → List ℕ → ByteOrder → WordOrder → ℕ → Device
new_device unit_id name byte_order word_order p = record {
  at = p;
  name = field name;
  dev = record { unit_id = unit_id % 2 ^ 16; byte_order = byte_order; word_order = word_order };
  regs = [];
}

unfoldable pub device_added :
    ℕ → List ℕ → ByteOrder → WordOrder → List Device → List ℕ → ℕ × Registry
device_added unit_id name byte_order word_order ds [] = (0, record { devices = ds; unused = [] })
device_added unit_id name byte_order word_order ds (p ∷ ps) =
    (p, record { devices = new_device unit_id name byte_order word_order p ∷ ds; unused = ps })

-- What osm_modbus_add_device does to the registry.
unfoldable pub registry_add : ℕ → List ℕ → ByteOrder → WordOrder → Registry → ℕ × Registry
registry_add unit_id name byte_order word_order reg =
    if unit_id == 0 || ltb name_len (strlen name) || not (by_name name reg.devices == 0)
    then (0, reg)
    else device_added unit_id name byte_order word_order reg.devices reg.unused

-- A reply and a bus that holds the registry.
abbrev pub Holds : {A : Type 0} → Option (A × Bus) → A × Registry → Type 0
Holds {A} result (a, reg) = (bus : Bus) × (result ≡ some (a, bus)) × Rep bus reg

pub link_device_lem :
    (unit_id : ℕ) (name : List ℕ) (byte_order : ByteOrder) (word_order : WordOrder) (bus : Bus)
    (ds : List Device) (p : ℕ) (ps : List ℕ)
    → Rep bus (record { devices = ds; unused = p ∷ ps })
    → Rep
        (link_device unit_id name byte_order word_order p
          (record bus { first_free_offset = first free_kind ps 0 }))
        (record { devices = new_device unit_id name byte_order word_order p ∷ ds; unused = ps })
unfolding link_device Chain first all_places count
link_device_lem unit_id name byte_order word_order bus ds p ps rep =
    let unowned : count p (dev_places ds) + count p (free_places ps) ≡ 0 =
      free_unowned bus ds p ps rep in
    let d : Device = new_device unit_id name byte_order word_order p in
    let b : Block = dev_block (dev_slot d bus.first_dev_offset) in
    record {
      dev_start = refl;
      free_start = refl;
      dev_chain = (
        free_not_null bus ds p ps rep,
        (write_here bus.blocks p b ∙ ap (λ n. dev_block (dev_slot d n)) rep.dev_start, tt),
        Chain-write dev_kind bus.blocks ds 0 p b (omega (arith, unowned)) rep.dev_chain,
      );
      free_chain =
          Chain-write free_kind bus.blocks ps 0 p b (omega (arith, unowned))
            (free_rest bus ds p ps rep);
      owned = λ a. omega (arith, rep.owned a);
      total = omega (arith, rep.total);
    }

pub add_new_device_lem :
    (unit_id : ℕ) (name : List ℕ) (byte_order : ByteOrder) (word_order : WordOrder) (bus : Bus)
    (ds : List Device) (us : List ℕ)
    → Rep bus (record { devices = ds; unused = us })
    → Holds
        (add_new_device unit_id name byte_order word_order bus)
        (device_added unit_id name byte_order word_order ds us)
unfolding add_new_device device_added
add_new_device_lem unit_id name byte_order word_order bus ds [] rep =
    (bus, rw (allocate_block-none bus ds rep, add_new_device) refl, rep)
add_new_device_lem unit_id name byte_order word_order bus ds (p ∷ ps) rep = (
  link_device unit_id name byte_order word_order p
      (record bus { first_free_offset = first free_kind ps 0 }),
  rw
      (
        allocate_block-some bus ds p ps rep,
        ne→== p 0 (free_not_null bus ds p ps rep),
        add_new_device,
      )
      refl,
  link_device_lem unit_id name byte_order word_order bus ds p ps rep,
)

-- If the bus holds the registry, osm_modbus_add_device has a result: it returns what the
-- registry's operation returns, no device for unit id 0, a long or used name or a full memory,
-- and the bus holds the registry after it.
pub add_device_lem :
    (unit_id : ℕ) (name : List ℕ) (byte_order : ByteOrder) (word_order : WordOrder) (bus : Bus)
    (reg : Registry)
    → Rep bus reg
    → Holds
        (add_device unit_id name byte_order word_order bus)
        (registry_add unit_id name byte_order word_order reg)
unfolding add_device registry_add
add_device_lem unit_id name byte_order word_order bus reg rep =
    elim (Bool-cases (unit_id == 0 || ltb name_len (strlen name))) [
      | inl bad ↦ rw (bad) (bus, refl, rep)
      | inr good ↦ elim (Bool-cases (by_name name reg.devices == 0)) [
        | inl new ↦
            rw (good, get_device_by_name_lem bus reg rep name, new)
              (add_new_device_lem unit_id name byte_order word_order bus reg.devices reg.unused rep)
        | inr used ↦ rw (good, get_device_by_name_lem bus reg rep name, used) (bus, refl, rep)
      ]
    ]
