-- ===== src/ModbusMem/DelRegIn.antt =====
-- core/modbus_mem.c: a register is taken out of its device, in the registry.
use osm_firmware_v.Base.{
  ℕ, suc, ◌+◌, ◌≤◌, ◌≡◌, ◌≢◌, refl, ◌∙◌, arith, List, [], ◌∷◌, ◌++◌, Option, some, ==_refl, ne→==,
  length, length-append,
}
use osm_firmware_v.ModbusMem.{Block, dev_block, reg_block, write, Bus, as_dev, modbus_free, fuel}
use osm_firmware_v.ModbusMem.Edit.{reg_del_in}
use osm_firmware_v.ModbusMem.Registry.{Register, Device}
use osm_firmware_v.ModbusMem.Chain.{
  write_here, write_other, count, count_self, count_grows, not_counted, all_places,
  all_places-append, first, Chain, Chain-split, Chain-write,
}
use osm_firmware_v.ModbusMem.Rep.{reg_slot, reg_kind, reg_places, dev_slot, dev_kind, Rep, once}
use osm_firmware_v.ModbusMem.Among.{
  split_count, device_not_null, device_cell, device_regs, device_alone, few_registers,
}
use osm_firmware_v.ModbusMem.UnlinkReg.{apart_reg, unlink_reg_lem}
use osm_firmware_v.ModbusMem.RegChange.{with_regs, free_changed, length-reg_places}

-- A register `r` among the others of the device.
module _ (bus : Bus) (pre : List Device) (d : Device) (post : List Device) (us : List ℕ)
    (r : Register) (ys : List Register) where
  abbrev Before : List Register → Type 0
  Before xs = Rep bus (record { devices = pre ++ with_regs (xs ++ r ∷ ys) d ∷ post; unused = us })

  abbrev Deleted : List Register → Option Bus → Type 0
  Deleted xs result =
      (bus' : Bus) × (result ≡ some bus')
      × Rep bus' (record { devices = pre ++ with_regs (xs ++ ys) d ∷ post; unused = r.at ∷ us })

  pub moved :
      (xs : List Register) (a : ℕ)
      → count a (reg_places (xs ++ r ∷ ys)) ≡ count a (r.at ∷ reg_places (xs ++ ys))
  unfolding all_places count
  moved xs a =
      omega (arith, all_places-append reg_kind xs (r ∷ ys) a, all_places-append reg_kind xs ys a)

  pub shorter :
      (xs : List Register)
      → length (reg_places (xs ++ r ∷ ys)) ≡ suc (length (reg_places (xs ++ ys)))
  shorter xs = omega (
    arith,
    length-reg_places (xs ++ r ∷ ys),
    length-reg_places (xs ++ ys),
    length-append xs (r ∷ ys),
    length-append xs ys,
  )

  pub registers_once :
      (xs : List Register) → Before xs → (a : ℕ) → count a (d.at ∷ reg_places (xs ++ r ∷ ys)) ≤ 1
  registers_once xs rep a =
      let here : Device = with_regs (xs ++ r ∷ ys) d in
      omega (
        arith,
        once bus (record { devices = pre ++ here ∷ post; unused = us }) rep a,
        split_count bus pre here post us rep a,
      )

  -- Other registers have other places.
  pub registers_apart :
      (xs : List Register)
      → Before xs
      → (count r.at (reg_places xs) ≡ 0)
        × ((a : ℕ) → count a (reg_places xs) + count a (reg_places ys) ≤ 1)
  registers_apart xs rep = (
    omega (
      arith,
      registers_once xs rep r.at,
      count_grows r.at d.at (reg_places (xs ++ r ∷ ys)),
      moved xs r.at,
      count_self r.at (reg_places (xs ++ ys)),
      all_places-append reg_kind xs ys r.at,
    ),
    λ a. omega (
      arith,
      registers_once xs rep a,
      count_grows a d.at (reg_places (xs ++ r ∷ ys)),
      moved xs a,
      count_grows a r.at (reg_places (xs ++ ys)),
      all_places-append reg_kind xs ys a,
    ),
  )

  pub delete_first :
      (rep : Before []) → Deleted [] (reg_del_in d.at r.at (reg_slot r (first reg_kind ys 0)) bus)
  unfolding reg_del_in as_dev Chain first
  delete_first rep =
      let here : Device = with_regs (r ∷ ys) d in
      let (ne, cell, rest) = device_regs bus pre here post us rep in
      let b : Block = dev_block (dev_slot (with_regs ys d) (first dev_kind post 0)) in
      let alone : count d.at (reg_places (r ∷ ys)) ≡ 0 =
        omega (arith, device_alone bus pre here post us rep) in
      (
        modbus_free r.at (record bus { blocks = write bus.blocks d.at b }),
        rw
            (
              ne→== d.at 0 (device_not_null bus pre here post us rep),
              device_cell bus pre here post us rep,
              ==_refl r.at,
            )
            refl,
        free_changed bus pre here post us rep ys r.at (write bus.blocks d.at b)
            (λ a out.
              write_other bus.blocks d.at a b (not_counted a d.at (reg_places (r ∷ ys)) out))
            (write_here bus.blocks d.at b)
            (Chain-write reg_kind bus.blocks ys 0 d.at b
              (omega (arith, alone, moved [] d.at, count_grows d.at r.at (reg_places ys))) rest)
            (moved []) (shorter []) ne,
      )

  pub delete_later :
      (x : Register) (xs : List Register) (rep : Before (x ∷ xs))
      → Deleted (x ∷ xs) (reg_del_in d.at r.at (reg_slot r (first reg_kind ys 0)) bus)
  unfolding reg_del_in as_dev Chain first
  delete_later x xs rep =
      let here : Device = with_regs (x ∷ xs ++ r ∷ ys) d in
      let (before, (ne, cell, rest)) =
        Chain-split reg_kind bus.blocks (x ∷ xs) (r ∷ ys) 0
          (device_regs bus pre here post us rep) in
      let (out, apart_regs) = registers_apart (x ∷ xs) rep in
      let other : x.at ≢ r.at = (apart_reg r.at x xs out).0 in
      let (h', done, (chain, same)) =
        unlink_reg_lem fuel x xs r.at (reg_slot r (first reg_kind ys 0)) ys bus before cell refl
          rest out apart_regs
          (omega (arith, few_registers bus pre here post us rep, length-append xs (r ∷ ys))) in
      (
        modbus_free r.at (record bus { blocks = h' }),
        rw
            (
              ne→== d.at 0 (device_not_null bus pre here post us rep),
              device_cell bus pre here post us rep,
              ne→== x.at r.at other,
            )
            done,
        free_changed bus pre here post us rep (x ∷ xs ++ ys) r.at h'
            (λ a none_here. same a (
              omega (
                arith,
                none_here,
                count_grows a d.at (reg_places (x ∷ xs ++ r ∷ ys)),
                all_places-append reg_kind (x ∷ xs) (r ∷ ys) a,
              )))
            (same d.at (
                omega (
                  arith,
                  device_alone bus pre here post us rep,
                  all_places-append reg_kind (x ∷ xs) (r ∷ ys) d.at,
                ))
              ∙ device_cell bus pre here post us rep)
            chain (moved (x ∷ xs)) (shorter (x ∷ xs)) ne,
      )

  pub delete_register :
      (xs : List Register)
      → Before xs
      → Deleted xs (reg_del_in d.at r.at (reg_slot r (first reg_kind ys 0)) bus)
  delete_register [] rep = delete_first rep
  delete_register (x ∷ xs) rep = delete_later x xs rep

  pub register_cell :
      (xs : List Register)
      → Before xs
      → bus.blocks r.at ≡ reg_block (reg_slot r (first reg_kind ys 0))
  unfolding Chain first
  register_cell xs rep =
      let here : Device = with_regs (xs ++ r ∷ ys) d in
      (Chain-split reg_kind bus.blocks xs (r ∷ ys) 0 (device_regs bus pre here post us rep)).1.1
