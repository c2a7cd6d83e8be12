-- ===== src/ModbusMem/Find.antt =====
-- core/modbus_mem.c: the searches along the devices and the registers, in the registry.
use osm_firmware_v.Base.{
  ℕ, zero, suc, ◌+◌, ◌<◌, ◌≡◌, ◌≢◌, inl, inr, refl, ap, ◌∙◌, arith, Bool, true, false, not, List,
  [], ◌∷◌, some, Bool-cases, ◌==◌, ne→==, ltb, if◌then◌else◌, length, ◌++◌, length-append,
}
use osm_firmware_v.Base.Strings.{strlen, same_chars}
use osm_firmware_v.ModbusMem.{
  Memory, RegSlot, DevSlot, dev_block, Bus, name_len, as_dev, as_reg, find_dev, find_reg, fuel,
  get_device_by_id, get_device_by_name, dev_get_reg_by_name, get_reg_from, get_reg,
}
use osm_firmware_v.ModbusMem.Registry.{
  Register, Device, Registry, first_dev, first_reg, named, by_id, by_name, register_named,
}
use osm_firmware_v.ModbusMem.Chain.{all_places, first, Chain, length_places}
use osm_firmware_v.ModbusMem.Rep.{
  reg_slot, reg_kind, reg_places, dev_slot, dev_kind, dev_places, Rep,
}

pub if_some : (b : Bool) (x y : ℕ) → (if b then some x else some y) ≡ some (if b then x else y)
if_some true x y = refl
if_some false x y = refl

module _ (test : DevSlot → Bool) (test' : Device → Bool)
    (same : (d : Device) (next : ℕ) → test (dev_slot d next) ≡ test' d) where
  pub find_dev_lem :
      (h : Memory) (k : ℕ) (ds : List Device)
      → Chain dev_kind h ds 0
      → length ds < k
      → find_dev test h k (first dev_kind ds 0) ≡ some (first_dev test' ds)
  unfolding find_dev Chain first as_dev first_dev
  find_dev_lem h zero ds c i = absurd (omega (arith, i))
  find_dev_lem h (suc k) [] c i = refl
  find_dev_lem h (suc k) (d ∷ ds) (ne, (e, regs), c) i =
      rw
        (ne→== d.at 0 ne, e, same d (first dev_kind ds 0), find_dev_lem h k ds c (omega (arith, i)))
        (if_some (test' d) d.at (first_dev test' ds))

module _ (test : RegSlot → Bool) (test' : Register → Bool)
    (same : (r : Register) (next : ℕ) → test (reg_slot r next) ≡ test' r) where
  pub find_reg_lem :
      (h : Memory) (k : ℕ) (rs : List Register)
      → Chain reg_kind h rs 0
      → length rs < k
      → find_reg test h k (first reg_kind rs 0) ≡ some (first_reg test' rs)
  unfolding find_reg Chain first as_reg first_reg
  find_reg_lem h zero rs c i = absurd (omega (arith, i))
  find_reg_lem h (suc k) [] c i = refl
  find_reg_lem h (suc k) (r ∷ rs) (ne, e, c) i =
      rw
        (ne→== r.at 0 ne, e, same r (first reg_kind rs 0), find_reg_lem h k rs c (omega (arith, i)))
        (if_some (test' r) r.at (first_reg test' rs))

pub devices_few : (bus : Bus) (reg : Registry) → Rep bus reg → length reg.devices < fuel
devices_few bus reg rep =
    omega (arith, rep.total, length_places dev_kind reg.devices (λ d. omega arith))

-- The searches of a bus that holds a registry.
module _ (bus : Bus) (reg : Registry) (rep : Rep bus reg) where
  pub get_device_by_id_lem :
      (unit_id : ℕ) → get_device_by_id bus unit_id ≡ some (by_id unit_id reg.devices)
  unfolding get_device_by_id by_id
  get_device_by_id_lem unit_id = rw (rep.dev_start) (
      find_dev_lem (λ d. d.dev.unit_id == unit_id) (λ d. d.dev.unit_id == unit_id) (λ d next. refl)
        bus.blocks fuel reg.devices rep.dev_chain (devices_few bus reg rep))

  pub get_device_by_name_lem :
      (name : List ℕ) → get_device_by_name bus name ≡ some (by_name name reg.devices)
  unfolding get_device_by_name by_name
  get_device_by_name_lem name = elim (Bool-cases (ltb name_len (strlen name))) [
    | inl e ↦ rw e refl
    | inr e ↦
        rw (e, rep.dev_start)
          (find_dev_lem (λ d. same_chars name d.name name_len)
            (λ d. same_chars name d.name name_len) (λ d next. refl) bus.blocks fuel reg.devices
            rep.dev_chain (devices_few bus reg rep))
  ]

-- A search for a register of the device at `p`.
pub dev_get_reg_by_name_lem :
    (bus : Bus) (d : Device) (next : ℕ) (name : List ℕ)
    → d.at ≢ 0
    → bus.blocks d.at ≡ dev_block (dev_slot d next)
    → Chain reg_kind bus.blocks d.regs 0
    → length d.regs < fuel
    → dev_get_reg_by_name bus d.at name ≡ some (named name d.regs)
unfolding dev_get_reg_by_name as_dev
dev_get_reg_by_name_lem bus d next name ne e c few =
    elim (Bool-cases (ltb name_len (strlen name))) [
      | inl long ↦ rw (ne→== d.at 0 ne, long) refl
      | inr short ↦
          rw (ne→== d.at 0 ne, short, e)
            (find_reg_lem (λ r. same_chars name r.name name_len)
              (λ r. same_chars name r.name name_len) (λ r next. refl) bus.blocks fuel d.regs c few)
    ]

pub get_reg_from_lem :
    (bus : Bus) (name : List ℕ) (k : ℕ) (ds : List Device)
    → Chain dev_kind bus.blocks ds 0
    → length (dev_places ds) < fuel
    → length ds < k
    → get_reg_from bus name k (first dev_kind ds 0) ≡ some (register_named name ds)
unfolding get_reg_from register_named Chain first as_dev all_places
get_reg_from_lem bus name zero ds c few i = absurd (omega (arith, i))
get_reg_from_lem bus name (suc k) [] c few i = refl
get_reg_from_lem bus name (suc k) (d ∷ ds) (ne, (e, regs), c) few i =
    let places : length (reg_places d.regs ++ dev_places ds)
        ≡ length (reg_places d.regs) + length (dev_places ds) =
      length-append (reg_places d.regs) (dev_places ds) in
    let found : dev_get_reg_by_name bus d.at name ≡ some (named name d.regs) =
      dev_get_reg_by_name_lem bus d (first dev_kind ds 0) name ne e regs
        (omega (arith, few, places, length_places reg_kind d.regs (λ r. omega arith))) in
    let rest : get_reg_from bus name k (first dev_kind ds 0) ≡ some (register_named name ds) =
      get_reg_from_lem bus name k ds c (omega (arith, few, places)) (omega (arith, i)) in
    rw (ne→== d.at 0 ne, e, found, rest)
      (if_some (not (named name d.regs == 0)) (named name d.regs) (register_named name ds))

-- If the bus holds the registry, osm_modbus_get_reg, which follows the links of the devices and
-- their registers, ends and gives the place of the first register of that name in the registry's
-- lists.
pub get_reg_lem :
    (bus : Bus) (reg : Registry) (name : List ℕ)
    → Rep bus reg
    → get_reg bus name ≡ some (register_named name reg.devices)
unfolding get_reg
get_reg_lem bus reg name rep =
    ap (get_reg_from bus name fuel) rep.dev_start
    ∙ get_reg_from_lem bus name fuel reg.devices rep.dev_chain (omega (arith, rep.total))
        (devices_few bus reg rep)
