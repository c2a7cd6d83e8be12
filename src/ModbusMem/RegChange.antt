-- ===== src/ModbusMem/RegChange.antt =====
-- core/modbus_mem.c: the memory and the registry when the registers of one device change.
use osm_firmware_v.Base.{
  ℕ, suc, ◌+◌, ◌≤◌, ◌≡◌, ◌≢◌, refl, ap, sym, ◌∙◌, arith, List, [], ◌∷◌, ◌++◌, length, length-append,
}
use osm_firmware_v.ModbusMem.{Memory, dev_block, Bus, modbus_free}
use osm_firmware_v.ModbusMem.Registry.{Register, Device}
use osm_firmware_v.ModbusMem.Chain.{
  count, count-append, count_self, all_places, all_places-append, first, first-append, Chain,
  Chain-append, Chain-frame,
}
use osm_firmware_v.ModbusMem.Rep.{
  reg_kind, reg_places, dev_slot, dev_kind, dev_places, free_kind, free_places, Rep, once,
}
use osm_firmware_v.ModbusMem.Among.{
  split_count, split-Chain, device_not_null, devices_after, length-dev_places,
}
use osm_firmware_v.ModbusMem.Release.{modbus_free-Chain, modbus_free_elsewhere}

abbrev pub with_regs : List Register → Device → Device
with_regs rs d = record d { regs = rs }

-- A change in the registers of `d`: the memory differs in its own blocks only.
module _ (bus : Bus) (pre : List Device) (d : Device) (post : List Device) (us : List ℕ)
    (rep : Rep bus (record { devices = pre ++ d ∷ post; unused = us })) (rs : List Register) (p : ℕ)
    (h' : Memory) (same : (a : ℕ) → count a (d.at ∷ reg_places d.regs) ≡ 0 → h' a ≡ bus.blocks a)
    (cell : h' d.at ≡ dev_block (dev_slot (with_regs rs d) (first dev_kind post 0)))
    (regs : Chain reg_kind h' rs 0)
    (moved : (a : ℕ) → count a (reg_places d.regs) ≡ count a (p ∷ reg_places rs))
    (shorter : length (reg_places d.regs) ≡ suc (length (reg_places rs))) where
  pub apart :
      (a : ℕ)
      → count a (dev_places pre)
          + count a (d.at ∷ reg_places d.regs)
          + count a (dev_places post)
          + count a (free_places us)
        ≤ 1
  apart a = omega (
    arith,
    once bus (record { devices = pre ++ d ∷ post; unused = us }) rep a,
    split_count bus pre d post us rep a,
  )

  pub changed_devices : Chain dev_kind h' (pre ++ with_regs rs d ∷ post) 0
  unfolding Chain first
  changed_devices =
      Chain-append dev_kind h' pre (with_regs rs d ∷ post) 0
        (Chain-frame dev_kind bus.blocks h' pre d.at
          (λ a mine. same a (omega (arith, mine, apart a))) (split-Chain bus pre d post us rep).0)
        (
          device_not_null bus pre d post us rep,
          (cell, regs),
          Chain-frame dev_kind bus.blocks h' post 0
              (λ a mine. same a (omega (arith, mine, apart a)))
              (devices_after bus pre d post us rep),
        )

  pub free_changed :
      p ≢ 0
      → Rep
          (modbus_free p (record bus { blocks = h' }))
          (record { devices = pre ++ with_regs rs d ∷ post; unused = p ∷ us })
  unfolding modbus_free first all_places count
  free_changed not_null =
      let all_changed : (a : ℕ)
          → count a (dev_places (pre ++ with_regs rs d ∷ post))
            ≡ count a (dev_places pre)
              + (count a (d.at ∷ reg_places rs) + count a (dev_places post)) =
        λ a. omega (
          arith,
          all_places-append dev_kind pre (with_regs rs d ∷ post) a,
          count-append a (d.at ∷ reg_places rs) (dev_places post),
        ) in
      let out : count p (dev_places (pre ++ with_regs rs d ∷ post)) + count p (free_places us) ≡ 0 =
        omega (arith, apart p, all_changed p, moved p, count_self p (reg_places rs)) in
      record {
        dev_start =
            rep.dev_start
            ∙ first-append dev_kind pre (d ∷ post) 0
            ∙ sym (first-append dev_kind pre (with_regs rs d ∷ post) 0);
        free_start = refl;
        dev_chain =
            modbus_free_elsewhere dev_kind (record bus { blocks = h' }) p 0
              (pre ++ with_regs rs d ∷ post) (omega (arith, out)) changed_devices;
        free_chain =
            modbus_free-Chain (record bus { blocks = h' }) p us not_null (omega (arith, out))
              rep.free_start
              (Chain-frame free_kind bus.blocks h' us 0
                (λ a mine. same a (omega (arith, mine, apart a))) rep.free_chain);
        owned = λ a.
            omega (arith, rep.owned a, split_count bus pre d post us rep a, all_changed a, moved a);
        total = omega (
          arith,
          rep.total,
          shorter,
          length-dev_places pre (d ∷ post),
          length-dev_places pre (with_regs rs d ∷ post),
          length-append (reg_places d.regs) (dev_places post),
          length-append (reg_places rs) (dev_places post),
        );
      }

pub length-reg_places : (rs : List Register) → length (reg_places rs) ≡ length rs
unfolding all_places
length-reg_places [] = refl
length-reg_places (r ∷ rs) = ap suc (length-reg_places rs)
