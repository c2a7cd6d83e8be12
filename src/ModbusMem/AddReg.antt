-- ===== src/ModbusMem/AddReg.antt =====
-- core/modbus_mem.c: osm_modbus_dev_add_reg in the registry.
use osm_firmware_v.Base.{
  ℕ, ◌+◌, ◌≡◌, ◌≢◌, inl, inr, refl, ap, sym, ◌∙◌, subst, arith, Bool, true, false, not, ◌||◌, List,
  [], ◌∷◌, ◌++◌, some, Bool-cases, ◌==◌, ne→==, ltb, if◌then◌else◌, length-append,
}
use osm_firmware_v.Base.Strings.{strlen}
use osm_firmware_v.Modbus.{RegType, reg_invalid}
use osm_firmware_v.Modbus.Send.{read_holding, read_input}
use osm_firmware_v.ModbusMem.{
  Memory, Block, DevSlot, dev_block, reg_block, write, Bus, name_len, field, as_dev,
  dev_get_reg_by_name,
}
use osm_firmware_v.ModbusMem.Edit.{link_register, add_new_register, dev_add_reg}
use osm_firmware_v.ModbusMem.Registry.{Register, Device, Registry, named, change, regs_at, unit_at}
use osm_firmware_v.ModbusMem.Chain.{
  Kind, all_places-append, first-append, count_grows, write_here, write_other, count, count-append,
  count_self, all_places, first, Chain, Chain-write, Chain-append,
}
use osm_firmware_v.ModbusMem.Rep.{
  reg_slot, reg_kind, reg_places, dev_slot, dev_kind, dev_places, free_kind, free_places, Rep,
}
use osm_firmware_v.ModbusMem.FreePlace.{
  free_not_null, free_rest, free_unowned, free_count, allocate_block-some, allocate_block-none,
}
use osm_firmware_v.ModbusMem.Among.{
  split_count, split-Chain, device_not_null, device_cell, device_regs, devices_after, device_alone,
  few_registers, length-dev_places,
}
use osm_firmware_v.ModbusMem.Add.{Holds}
use osm_firmware_v.ModbusMem.Find.{dev_get_reg_by_name_lem}
use osm_firmware_v.ModbusMem.Place.{Stands, regs_at_behind, unit_at_behind, change_behind}

-- A new register of a unit, at `q`.
abbrev pub new_register : List ℕ → RegType → ℕ → ℕ → ℕ → ℕ → Register
new_register name type func reg_addr unit_id q = record {
  at = q;
  name = field name;
  reg = record {
    value_data = 0;
    type = type;
    func = func;
    value_state = reg_invalid;
    reg_addr = reg_addr;
    unit_id = unit_id;
  };
}

abbrev pub with_register : Register → Device → Device
with_register r d = record d { regs = r ∷ d.regs }

unfoldable pub register_added :
    ℕ → List ℕ → RegType → ℕ → ℕ → List Device → List ℕ → Bool × Registry
register_added p name type func reg_addr ds [] = (false, record { devices = ds; unused = [] })
register_added p name type func reg_addr ds (q ∷ qs) =
    let r : Register = new_register name type func reg_addr (unit_at p ds) q in
    (true, record { devices = change p (with_register r) ds; unused = qs })

-- What osm_modbus_dev_add_reg does to the registry, for the device at `p`.
unfoldable pub registry_add_reg : ℕ → List ℕ → RegType → ℕ → ℕ → Registry → Bool × Registry
registry_add_reg p name type func reg_addr reg =
    if p == 0 || ltb name_len (strlen name) || not (func == read_holding || func == read_input)
    then (false, reg)
    else (if not (named name (regs_at p reg.devices) == 0)
        then (false, reg)
        else register_added p name type func reg_addr reg.devices reg.unused)

-- Two writes elsewhere.
Chain-write_two :
    {E : Type 0} (K : Kind E) (h : Memory) (xs : List E) (end p q : ℕ) (b c : Block)
    → count p (all_places K xs) ≡ 0
    → count q (all_places K xs) ≡ 0
    → Chain K h xs end
    → Chain K (write (write h q c) p b) xs end
Chain-write_two K h xs end p q b c out out' chain =
    Chain-write K (write h q c) xs end p b out (Chain-write K h xs end q c out' chain)

module _ (bus : Bus) (pre : List Device) (d : Device) (post : List Device) (q : ℕ) (qs : List ℕ)
    (rep : Rep bus (record { devices = pre ++ d ∷ post; unused = q ∷ qs })) (name : List ℕ)
    (type : RegType) (func reg_addr : ℕ) where
  -- The free place is none of the devices' places, and the device's is no other's.
  pub places_apart :
      (count q (dev_places pre)
          + count q (d.at ∷ reg_places d.regs)
          + count q (dev_places post)
          + count q (free_places qs)
        ≡ 0)
      × (count d.at (dev_places pre)
            + count d.at (reg_places d.regs)
            + count d.at (dev_places post)
            + count d.at (free_places qs)
          ≡ 0)
  places_apart = (
    omega (
      arith,
      free_unowned bus (pre ++ d ∷ post) q qs rep,
      split_count bus pre d post (q ∷ qs) rep q,
    ),
    omega (
      arith,
      device_alone bus pre d post (q ∷ qs) rep,
      free_count bus (pre ++ d ∷ post) q qs rep d.at,
      count_grows d.at q (free_places qs),
    ),
  )

  abbrev added : Device
  added = with_register (new_register name type func reg_addr d.dev.unit_id q) d

  abbrev new : Block
  new =
      reg_block
        (reg_slot (new_register name type func reg_addr d.dev.unit_id q) (first reg_kind d.regs 0))

  abbrev dev : Block
  dev = dev_block (dev_slot added (first dev_kind post 0))

  abbrev linked : Memory
  linked = write (write bus.blocks q new) d.at dev

  pub linked_devices : Chain dev_kind linked (pre ++ added ∷ post) 0
  unfolding Chain first
  linked_devices =
      let (apart_q, apart_d) = places_apart in
      let ne : d.at ≢ q = λ e. absurd (
        omega (
          arith,
          apart_q,
          count_self d.at (reg_places d.regs),
          ap (λ a. count a (d.at ∷ reg_places d.regs)) e,
        )) in
      Chain-append dev_kind linked pre (added ∷ post) 0
        (Chain-write_two dev_kind bus.blocks pre d.at d.at q dev new (omega (arith, apart_d))
          (omega (arith, apart_q)) (split-Chain bus pre d post (q ∷ qs) rep).0)
        (
          device_not_null bus pre d post (q ∷ qs) rep,
          (
            write_here (write bus.blocks q new) d.at dev,
            (
              free_not_null bus (pre ++ d ∷ post) q qs rep,
              write_other (write bus.blocks q new) d.at q dev (λ e. ne (sym e))
                  ∙ write_here bus.blocks q new,
              Chain-write_two reg_kind bus.blocks d.regs 0 d.at q dev new (omega (arith, apart_d))
                  (omega (arith, apart_q, count_grows q d.at (reg_places d.regs)))
                  (device_regs bus pre d post (q ∷ qs) rep),
            ),
          ),
          Chain-write_two dev_kind bus.blocks post 0 d.at q dev new (omega (arith, apart_d))
              (omega (arith, apart_q)) (devices_after bus pre d post (q ∷ qs) rep),
        )

  pub link_register_lem :
      (e : DevSlot)
      → e ≡ dev_slot d (first dev_kind post 0)
      → Rep
          (link_register d.at e name type func reg_addr q
            (record bus { first_free_offset = first free_kind qs 0 }))
          (record { devices = pre ++ added ∷ post; unused = qs })
  unfolding link_register all_places count first
  link_register_lem e same =
      let (apart_q, apart_d) = places_apart in
      rw (same) (record {
        dev_start =
            rep.dev_start
            ∙ first-append dev_kind pre (d ∷ post) 0
            ∙ sym (first-append dev_kind pre (added ∷ post) 0);
        free_start = refl;
        dev_chain = linked_devices;
        free_chain =
            Chain-write_two free_kind bus.blocks qs 0 d.at q dev new (omega (arith, apart_d))
              (omega (arith, apart_q)) (free_rest bus (pre ++ d ∷ post) q qs rep);
        owned = λ a. omega (
          arith,
          rep.owned a,
          split_count bus pre d post (q ∷ qs) rep a,
          all_places-append dev_kind pre (added ∷ post) a,
          count-append a (d.at ∷ q ∷ reg_places d.regs) (dev_places post),
        );
        total = omega (
          arith,
          rep.total,
          length-dev_places pre (d ∷ post),
          length-dev_places pre (added ∷ post),
          length-append (reg_places d.regs) (dev_places post),
        );
      })

  pub add_new_register-some :
      add_new_register d.at name type func reg_addr bus
      ≡ some (
        true,
        link_register d.at
            (dev_slot d (first dev_kind post 0))
            name
            type
            func
            reg_addr
            q
            (record bus { first_free_offset = first free_kind qs 0 }),
      )
  unfolding add_new_register as_dev
  add_new_register-some =
      rw
        (
          allocate_block-some bus (pre ++ d ∷ post) q qs rep,
          add_new_register,
          ne→== q 0 (free_not_null bus (pre ++ d ∷ post) q qs rep),
          device_cell bus pre d post (q ∷ qs) rep,
        )
        refl

-- A new register of the device `d` among others.
module _ (bus : Bus) (pre : List Device) (d : Device) (post : List Device) (name : List ℕ)
    (type : RegType) (func reg_addr : ℕ) where
  pub add_new_register_lem :
      (us : List ℕ)
      → Rep bus (record { devices = pre ++ d ∷ post; unused = us })
      → Holds
          (add_new_register d.at name type func reg_addr bus)
          (register_added d.at name type func reg_addr (pre ++ d ∷ post) us)
  unfolding add_new_register register_added
  add_new_register_lem [] rep =
      (bus, rw (allocate_block-none bus (pre ++ d ∷ post) rep, add_new_register) refl, rep)
  add_new_register_lem (q ∷ qs) rep =
      let out : count d.at (dev_places pre) ≡ 0 =
        omega (arith, device_alone bus pre d post (q ∷ qs) rep) in
      rw
        (
          unit_at_behind d post pre out,
          change_behind d post
              (with_register (new_register name type func reg_addr d.dev.unit_id q)) pre out,
        )
        (
          link_register d.at (dev_slot d (first dev_kind post 0)) name type func reg_addr q
              (record bus { first_free_offset = first free_kind qs 0 }),
          add_new_register-some bus pre d post q qs rep name type func reg_addr,
          link_register_lem bus pre d post q qs rep name type func reg_addr
              (dev_slot d (first dev_kind post 0)) refl,
        )

  pub dev_add_reg_behind :
      (us : List ℕ)
      → Rep bus (record { devices = pre ++ d ∷ post; unused = us })
      → Holds (dev_add_reg d.at name type func reg_addr bus) (
          registry_add_reg d.at name type func reg_addr
            (record { devices = pre ++ d ∷ post; unused = us }))
  unfolding dev_add_reg registry_add_reg
  dev_add_reg_behind us rep =
      let out : count d.at (dev_places pre) ≡ 0 =
        omega (arith, device_alone bus pre d post us rep) in
      let found : dev_get_reg_by_name bus d.at name ≡ some (named name d.regs) =
        dev_get_reg_by_name_lem bus d (first dev_kind post 0) name
          (device_not_null bus pre d post us rep) (device_cell bus pre d post us rep)
          (device_regs bus pre d post us rep) (few_registers bus pre d post us rep) in
      elim (Bool-cases (
        d.at == 0
        || ltb name_len (strlen name)
        || not (func == read_holding || func == read_input))) [
          | inl bad ↦ rw (bad) (bus, refl, rep)
          | inr good ↦ elim (Bool-cases (named name d.regs == 0)) [
            | inl new_name ↦
                rw (good, found, regs_at_behind d post pre out, new_name)
                  (add_new_register_lem us rep)
            | inr used ↦ rw (good, found, regs_at_behind d post pre out, used) (bus, refl, rep)
          ]
        ]

-- If the bus holds the registry and a device stands at the place, osm_modbus_dev_add_reg has a
-- result: it returns what the registry's operation returns, false for a long or used name, an
-- unsupported function or a full memory, and the bus holds the registry after it.
pub dev_add_reg_lem :
    (p : ℕ) (name : List ℕ) (type : RegType) (func reg_addr : ℕ) (bus : Bus) (reg : Registry)
    → Stands p reg.devices
    → Rep bus reg
    → Holds
        (dev_add_reg p name type func reg_addr bus)
        (registry_add_reg p name type func reg_addr reg)
dev_add_reg_lem p name type func reg_addr bus reg (pre, d, post, e, at_p) rep =
    let rep' : Rep bus (record { devices = pre ++ d ∷ post; unused = reg.unused }) =
      subst (λ ds. Rep bus (record { devices = ds; unused = reg.unused })) e rep in
    let behind : Holds (dev_add_reg d.at name type func reg_addr bus) (
        registry_add_reg d.at name type func reg_addr
          (record { devices = pre ++ d ∷ post; unused = reg.unused })) =
      dev_add_reg_behind bus pre d post name type func reg_addr reg.unused rep' in
    subst
      (λ ds.
        Holds (dev_add_reg p name type func reg_addr bus) (
          registry_add_reg p name type func reg_addr
            (record { devices = ds; unused = reg.unused })))
      (sym e)
      (subst
        (λ q. Holds (dev_add_reg q name type func reg_addr bus) (
          registry_add_reg q name type func reg_addr
            (record { devices = pre ++ d ∷ post; unused = reg.unused })))
        at_p behind)
