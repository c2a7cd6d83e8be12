-- ===== src/ModbusMem/Del.antt =====
-- core/modbus_mem.c: osm_modbus_dev_del in the registry.
use osm_firmware_v.Base.{
  ℕ, ◌+◌, ◌≤◌, ◌≡◌, ◌≢◌, refl, ap, ◌∙◌, subst, arith, List, [], ◌∷◌, ◌++◌, Option, some, ◌==◌,
  ==_refl, ne→==, length-append,
}
use osm_firmware_v.ModbusMem.{dev_block, Bus, as_dev, modbus_free, fuel}
use osm_firmware_v.ModbusMem.Edit.{unlink_dev, remove_dev, dev_del}
use osm_firmware_v.ModbusMem.Registry.{Device, Registry, released, registry_del}
use osm_firmware_v.ModbusMem.Chain.{
  count, count_grows, all_places, all_places-append, first, Chain, Chain-frame,
}
use osm_firmware_v.ModbusMem.Rep.{
  reg_places, dev_slot, dev_kind, dev_places, free_kind, free_places, Rep, once,
}
use osm_firmware_v.ModbusMem.Among.{
  split_count, split-Chain, device_not_null, device_cell, device_regs, devices_after, device_alone,
  few_registers, length-dev_places,
}
use osm_firmware_v.ModbusMem.Find.{devices_few}
use osm_firmware_v.ModbusMem.Release.{
  modbus_free-Chain, modbus_free_elsewhere, count-released, length-released, Freed,
  free_registers_lem,
}
use osm_firmware_v.ModbusMem.Unlink.{unlink_dev_lem}
use osm_firmware_v.ModbusMem.Place.{Stands, other_devices, regs_at_behind, drop_dev_behind}

-- The last step: the block of the device is freed.
module _ (bus : Bus) (pre : List Device) (d : Device) (post : List Device) (us : List ℕ)
    (rep : Rep bus (record { devices = pre ++ d ∷ post; unused = us })) where
  pub remaining_count :
      (a : ℕ)
      → count a (dev_places (pre ++ post)) ≡ count a (dev_places pre) + count a (dev_places post)
  remaining_count a = all_places-append dev_kind pre post a

  pub free_device :
      (bus' : Bus)
      → Chain dev_kind bus'.blocks (pre ++ post) 0
      → bus'.first_dev_offset ≡ first dev_kind (pre ++ post) 0
      → bus'.first_free_offset ≡ first free_kind (released d.regs us) 0
      → Chain free_kind bus'.blocks (released d.regs us) 0
      → Rep
          (modbus_free d.at bus')
          (record { devices = pre ++ post; unused = d.at ∷ released d.regs us })
  unfolding modbus_free first all_places count
  free_device bus' devices dev_start free_start free =
      let alone : count d.at (dev_places pre)
            + count d.at (reg_places d.regs)
            + count d.at (dev_places post)
            + count d.at (free_places us)
          ≡ 0 =
        device_alone bus pre d post us rep in
      record {
        dev_start = dev_start;
        free_start = refl;
        dev_chain =
            modbus_free_elsewhere dev_kind bus' d.at 0 (pre ++ post)
              (omega (arith, alone, remaining_count d.at)) devices;
        free_chain =
            modbus_free-Chain bus' d.at (released d.regs us) (device_not_null bus pre d post us rep)
              (omega (arith, alone, count-released d.at d.regs us)) free_start free;
        owned = λ a. omega (
          arith,
          rep.owned a,
          split_count bus pre d post us rep a,
          remaining_count a,
          count-released a d.regs us,
        );
        total = omega (
          arith,
          rep.total,
          length-dev_places pre (d ∷ post),
          length-dev_places pre post,
          length-append (reg_places d.regs) (dev_places post),
          length-released d.regs us,
        );
      }

  -- After the first loop, whose end is `bus'`.
  module _ (bus' : Bus) (freed : Freed bus bus' d.regs us) where
    pub kept :
        (ds : List Device) (end : ℕ)
        → ((a : ℕ) → count a (dev_places ds) + count a (reg_places d.regs) ≤ 1)
        → Chain dev_kind bus.blocks ds end
        → Chain dev_kind bus'.blocks ds end
    kept ds end apart c =
        Chain-frame dev_kind bus.blocks bus'.blocks ds end
          (λ a mine. freed.others_same a (omega (arith, mine, apart a))) c

    pub kept_before : Chain dev_kind bus'.blocks pre d.at
    kept_before =
        kept pre d.at
          (λ a. omega (
            arith,
            once bus (record { devices = pre ++ d ∷ post; unused = us }) rep a,
            split_count bus pre d post us rep a,
            count_grows a d.at (reg_places d.regs),
          ))
          (split-Chain bus pre d post us rep).0

    pub kept_after : Chain dev_kind bus'.blocks post 0
    kept_after =
        kept post 0
          (λ a. omega (
            arith,
            once bus (record { devices = pre ++ d ∷ post; unused = us }) rep a,
            split_count bus pre d post us rep a,
            count_grows a d.at (reg_places d.regs),
          ))
          (devices_after bus pre d post us rep)

    pub kept_device : bus'.blocks d.at ≡ dev_block (dev_slot d (first dev_kind post 0))
    kept_device =
        freed.others_same d.at (omega (arith, device_alone bus pre d post us rep))
        ∙ device_cell bus pre d post us rep

-- A result that holds the registry without the device.
abbrev pub Removed : List Device → Device → List Device → List ℕ → Option Bus → Type 0
Removed pre d post us result =
    (bus : Bus) × (result ≡ some bus)
    × Rep bus (record { devices = pre ++ post; unused = d.at ∷ released d.regs us })

pub remove_first :
    (bus : Bus) (d : Device) (post : List Device) (us : List ℕ)
    (rep : Rep bus (record { devices = d ∷ post; unused = us })) (bus' : Bus)
    (freed : Freed bus bus' d.regs us)
    → Removed [] d post us (remove_dev d.at bus')
unfolding remove_dev first as_dev
remove_first bus d post us rep bus' freed =
    let start : bus'.first_dev_offset ≡ d.at = freed.same_devices ∙ rep.dev_start in
    let taken : Bus = record bus' { first_dev_offset = first dev_kind post 0 } in
    (
      modbus_free d.at taken,
      rw (ap (λ p. p == d.at) start ∙ ==_refl d.at, kept_device bus [] d post us rep bus' freed)
          refl,
      free_device bus [] d post us rep taken (kept_after bus [] d post us rep bus' freed) refl
          freed.free_start freed.free_chain,
    )

pub remove_later :
    (bus : Bus) (m : Device) (ms : List Device) (d : Device) (post : List Device) (us : List ℕ)
    (rep : Rep bus (record { devices = m ∷ ms ++ d ∷ post; unused = us })) (bus' : Bus)
    (freed : Freed bus bus' d.regs us)
    → Removed (m ∷ ms) d post us (remove_dev d.at bus')
unfolding remove_dev first
remove_later bus m ms d post us rep bus' freed =
    let start : bus'.first_dev_offset ≡ m.at = freed.same_devices ∙ rep.dev_start in
    let alone : count d.at (dev_places (m ∷ ms))
          + count d.at (reg_places d.regs)
          + count d.at (dev_places post)
          + count d.at (free_places us)
        ≡ 0 =
      device_alone bus (m ∷ ms) d post us rep in
    let ne : m.at ≢ d.at = (other_devices d.at m ms (omega (arith, alone))).0 in
    let (h', done, unlinked) =
      unlink_dev_lem fuel m ms d.at (dev_slot d (first dev_kind post 0)) post bus'
        (kept_before bus (m ∷ ms) d post us rep bus' freed)
        (kept_device bus (m ∷ ms) d post us rep bus' freed) refl
        (kept_after bus (m ∷ ms) d post us rep bus' freed)
        (device_not_null bus (m ∷ ms) d post us rep) (omega (arith, alone))
        (λ a. omega (
          arith,
          once bus (record { devices = m ∷ ms ++ d ∷ post; unused = us }) rep a,
          split_count bus (m ∷ ms) d post us rep a,
        ))
        (omega (
          arith,
          devices_few bus (record { devices = m ∷ ms ++ d ∷ post; unused = us }) rep,
          length-append ms (d ∷ post),
        )) in
    (
      modbus_free d.at (record bus' { blocks = h' }),
      rw (ap (λ p. p == d.at) start ∙ ne→== m.at d.at ne)
          (ap (λ p. unlink_dev fuel p d.at bus') start ∙ done),
      free_device bus (m ∷ ms) d post us rep (record bus' { blocks = h' }) unlinked.0 start
          freed.free_start
          (Chain-frame free_kind bus'.blocks h' (released d.regs us) 0
            (λ a mine. unlinked.1 a (
              omega (
                arith,
                mine,
                once bus (record { devices = m ∷ ms ++ d ∷ post; unused = us }) rep a,
                split_count bus (m ∷ ms) d post us rep a,
                count-released a d.regs us,
                count_grows a d.at (reg_places d.regs),
              )))
            freed.free_chain),
    )

pub remove_dev_lem :
    (bus : Bus) (pre : List Device) (d : Device) (post : List Device) (us : List ℕ)
    (rep : Rep bus (record { devices = pre ++ d ∷ post; unused = us })) (bus' : Bus)
    (freed : Freed bus bus' d.regs us)
    → Removed pre d post us (remove_dev d.at bus')
remove_dev_lem bus [] d post us rep bus' freed = remove_first bus d post us rep bus' freed
remove_dev_lem bus (m ∷ ms) d post us rep bus' freed =
    remove_later bus m ms d post us rep bus' freed

pub dev_del_behind :
    (bus : Bus) (pre : List Device) (d : Device) (post : List Device) (us : List ℕ)
    → Rep bus (record { devices = pre ++ d ∷ post; unused = us })
    → Removed pre d post us (dev_del d.at bus)
unfolding dev_del as_dev
dev_del_behind bus pre d post us rep =
    let (bus', done, freed) =
      free_registers_lem fuel d.regs us bus (device_regs bus pre d post us rep) rep.free_start
        rep.free_chain
        (λ a. omega (
          arith,
          once bus (record { devices = pre ++ d ∷ post; unused = us }) rep a,
          split_count bus pre d post us rep a,
          count_grows a d.at (reg_places d.regs),
        ))
        (few_registers bus pre d post us rep) in
    rw
      (
        ne→== d.at 0 (device_not_null bus pre d post us rep),
        device_cell bus pre d post us rep,
        done,
      )
      (remove_dev_lem bus pre d post us rep bus' freed)

-- If the bus holds the registry and a device stands at the place, osm_modbus_dev_del has a
-- result, and it holds the registry without that device, whose block and whose registers' blocks
-- are free.
pub dev_del_lem :
    (p : ℕ) (bus : Bus) (reg : Registry)
    → Stands p reg.devices
    → Rep bus reg
    → (bus' : Bus) × (dev_del p bus ≡ some bus') × Rep bus' (registry_del p reg)
unfolding registry_del
dev_del_lem p bus reg (pre, d, post, e, at_p) rep =
    let us : List ℕ = reg.unused in
    let rep' : Rep bus (record { devices = pre ++ d ∷ post; unused = us }) =
      subst (λ ds. Rep bus (record { devices = ds; unused = us })) e rep in
    let out : count d.at (dev_places pre) ≡ 0 =
      omega (arith, device_alone bus pre d post us rep') in
    let (bus', done, held) = dev_del_behind bus pre d post us rep' in
    rw
      (
        ← at_p,
        e,
        ne→== d.at 0 (device_not_null bus pre d post us rep'),
        drop_dev_behind d post pre out,
        regs_at_behind d post pre out,
      )
      (bus', done, held)
