-- ===== src/ModbusMem/DelReg.antt =====
-- core/modbus_mem.c: osm_modbus_reg_del in the registry.
use osm_firmware_v.Base.{
  ℕ, ◌≡◌, ◌≢◌, inl, inr, refl, ap, sym, ◌∙◌, subst, arith, true, false, List, [], ◌∷◌, ◌++◌, Option,
  some, Bool-cases, ◌==◌, ==→ne, ne→==,
}
use osm_firmware_v.ModbusMem.{RegSlot, Block, reg_block, Bus, as_dev, as_reg, fuel}
use osm_firmware_v.ModbusMem.Edit.{reg_del_in, reg_del}
use osm_firmware_v.ModbusMem.Registry.{
  Register, Device, Registry, by_id, has_reg, drop_reg, reg_unit, without_reg, registry_del_in,
  registry_del_reg,
}
use osm_firmware_v.ModbusMem.Chain.{count, first}
use osm_firmware_v.ModbusMem.Rep.{reg_slot, reg_kind, reg_places, dev_places, Rep}
use osm_firmware_v.ModbusMem.Among.{
  device_not_null, device_cell, device_regs, device_alone, few_registers,
}
use osm_firmware_v.ModbusMem.Find.{get_device_by_id_lem}
use osm_firmware_v.ModbusMem.Place.{Stands, first_dev-Stands, regs_at_behind, change_behind}
use osm_firmware_v.ModbusMem.UnlinkReg.{apart_reg, unlink_reg_none}
use osm_firmware_v.ModbusMem.RegPlace.{
  known_reg, known_reg-Slot, has_reg-split, has_reg-none, drop_reg_behind,
}
use osm_firmware_v.ModbusMem.RegChange.{with_regs}
use osm_firmware_v.ModbusMem.DelRegIn.{delete_register, register_cell, registers_apart}

pub first_elsewhere :
    (p : ℕ) (rs : List Register) → p ≢ 0 → count p (reg_places rs) ≡ 0 → first reg_kind rs 0 ≢ p
unfolding first
first_elsewhere p [] not_null out = λ e. not_null (sym e)
first_elsewhere p (r ∷ rs) not_null out = (apart_reg p r rs out).0

abbrev pub slot_or : RegSlot → Block → RegSlot
slot_or s (reg_block t) = t
slot_or s _ = s

-- A bus that holds the registry as a result.
abbrev pub Results : Option Bus → Registry → Type 0
Results result reg = (bus : Bus) × (result ≡ some bus) × Rep bus reg

module _ (bus : Bus) (pre : List Device) (d : Device) (post : List Device) (us : List ℕ)
    (rep : Rep bus (record { devices = pre ++ d ∷ post; unused = us })) (p : ℕ) (not_null : p ≢ 0)
    (s : RegSlot) (block : bus.blocks p ≡ reg_block s) where
  pub del_other : has_reg p d.regs ≡ false → reg_del_in d.at p s bus ≡ some bus
  unfolding reg_del_in as_dev
  del_other has =
      let out : count p (reg_places d.regs) ≡ 0 = has_reg-none p d.regs has in
      rw
        (
          ne→== d.at 0 (device_not_null bus pre d post us rep),
          device_cell bus pre d post us rep,
          ne→== (first reg_kind d.regs 0) p (first_elsewhere p d.regs not_null out),
        )
        (unlink_reg_none fuel d.regs p bus (device_regs bus pre d post us rep) not_null out
          (few_registers bus pre d post us rep))

  pub del_found :
      has_reg p d.regs ≡ true
      → Results
          (reg_del_in d.at p s bus)
          (record { devices = pre ++ without_reg p d ∷ post; unused = p ∷ us })
  del_found has =
      let (xs, r, ys, e, at_p) = has_reg-split p d.regs has in
      let rep' : Rep bus
          (record { devices = pre ++ with_regs (xs ++ r ∷ ys) d ∷ post; unused = us }) =
        subst (λ rs. Rep bus (record { devices = pre ++ with_regs rs d ∷ post; unused = us })) e
          rep in
      let same : s ≡ reg_slot r (first reg_kind ys 0) =
        ap (slot_or s)
          (sym block ∙ ap bus.blocks (sym at_p) ∙ register_cell bus pre d post us r ys xs rep') in
      let dropped : drop_reg r.at (xs ++ r ∷ ys) ≡ xs ++ ys =
        drop_reg_behind r ys xs (registers_apart bus pre d post us r ys xs rep').0 in
      rw (← at_p, e, dropped, same) (delete_register bus pre d post us r ys xs rep')

  pub del_behind :
      Results
        (reg_del_in d.at p s bus)
        (registry_del_in d.at p (record { devices = pre ++ d ∷ post; unused = us }))
  unfolding registry_del_in
  del_behind =
      let out : count d.at (dev_places pre) ≡ 0 =
        omega (arith, device_alone bus pre d post us rep) in
      elim (Bool-cases (has_reg p d.regs)) [
        | inl here ↦
            rw
              (
                ne→== d.at 0 (device_not_null bus pre d post us rep),
                regs_at_behind d post pre out,
                here,
                change_behind d post (without_reg p) pre out,
              )
              (del_found here)
        | inr there ↦
            rw
              (
                ne→== d.at 0 (device_not_null bus pre d post us rep),
                regs_at_behind d post pre out,
                there,
              )
              (bus, del_other there, rep)
      ]

pub reg_del_in_lem :
    (q p : ℕ) (s : RegSlot) (bus : Bus) (reg : Registry)
    → Stands q reg.devices
    → Rep bus reg
    → p ≢ 0
    → bus.blocks p ≡ reg_block s
    → Results (reg_del_in q p s bus) (registry_del_in q p reg)
reg_del_in_lem q p s bus reg (pre, d, post, e, at_q) rep not_null block =
    let us : List ℕ = reg.unused in
    let rep' : Rep bus (record { devices = pre ++ d ∷ post; unused = us }) =
      subst (λ ds. Rep bus (record { devices = ds; unused = us })) e rep in
    rw (← at_q, e) (del_behind bus pre d post us rep' p not_null s block)

pub reg_del_by_id :
    (unit_id p : ℕ) (s : RegSlot) (bus : Bus) (reg : Registry)
    → Rep bus reg
    → p ≢ 0
    → bus.blocks p ≡ reg_block s
    → Results
        (reg_del_in (by_id unit_id reg.devices) p s bus)
        (registry_del_in (by_id unit_id reg.devices) p reg)
unfolding by_id reg_del_in registry_del_in
reg_del_by_id unit_id p s bus reg rep not_null block =
    elim (Bool-cases (by_id unit_id reg.devices == 0)) [
      | inl no_device ↦ rw (no_device) (bus, refl, rep)
      | inr device ↦
          reg_del_in_lem (by_id unit_id reg.devices) p s bus reg
            (first_dev-Stands (λ d. d.dev.unit_id == unit_id) reg.devices
              (==→ne (by_id unit_id reg.devices) 0 device))
            rep not_null block
    ]

-- If the bus holds the registry and a device has a register at the place, osm_modbus_reg_del has
-- a result, and it holds the registry in which the first device with the register's unit id is
-- without the register, whose block is the first free one; if that device has no such register,
-- nothing changes.
pub reg_del_lem :
    (p : ℕ) (bus : Bus) (reg : Registry)
    → known_reg p reg.devices ≡ true
    → Rep bus reg
    → Results (reg_del p bus) (registry_del_reg p reg)
unfolding reg_del registry_del_reg as_reg
reg_del_lem p bus reg known rep =
    let (s, block, unit) = known_reg-Slot bus.blocks p reg.devices rep.dev_chain known in
    elim (Bool-cases (p == 0)) [
      | inl null ↦ rw (null) (bus, refl, rep)
      | inr not_null ↦
          rw (not_null, block, get_device_by_id_lem bus reg rep s.reg.unit_id, unit)
            (reg_del_by_id (reg_unit p reg.devices) p s bus reg rep (==→ne p 0 not_null) block)
    ]
