-- ===== src/ModbusMem/Release.antt =====
-- core/modbus_mem.c: _modbus_free and the loop that frees the registers of a device.
use osm_firmware_v.Base.{
  ℕ, zero, suc, ◌+◌, ◌≤◌, ◌<◌, ◌≡◌, ◌≢◌, refl, ap, ◌∙◌, arith, not, List, [], ◌∷◌, some, ◌==◌,
  ne→==, if◌then◌else◌, length,
}
use osm_firmware_v.ModbusMem.{free_block, Bus, as_reg, modbus_free}
use osm_firmware_v.ModbusMem.Edit.{free_registers}
use osm_firmware_v.ModbusMem.Registry.{Register, released}
use osm_firmware_v.ModbusMem.Chain.{
  Kind, write_here, write_other, count, count_self, all_places, first, Chain, Chain-write,
}
use osm_firmware_v.ModbusMem.Rep.{reg_kind, reg_places, free_kind, free_places}

pub modbus_free-Chain :
    (bus : Bus) (p : ℕ) (us : List ℕ)
    → p ≢ 0
    → count p (free_places us) ≡ 0
    → bus.first_free_offset ≡ first free_kind us 0
    → Chain free_kind bus.blocks us 0
    → Chain free_kind (modbus_free p bus).blocks (p ∷ us) 0
unfolding modbus_free Chain
modbus_free-Chain bus p us ne out start c =
    let b = if not (bus.first_free_offset == 0) then bus.first_free_offset else 0 in
    let same : b ≡ first free_kind us 0 =
      let e : b ≡ bus.first_free_offset = ground arith in e ∙ start in
    (
      ne,
      write_here bus.blocks p (free_block b) ∙ ap free_block same,
      Chain-write free_kind bus.blocks us 0 p (free_block b) out c,
    )

pub modbus_free_other : (bus : Bus) (p a : ℕ) → a ≢ p → (modbus_free p bus).blocks a ≡ bus.blocks a
unfolding modbus_free
modbus_free_other bus p a ne = write_other bus.blocks p a (free_block _) ne

pub modbus_free_elsewhere :
    {E : Type 0} (K : Kind E) (bus : Bus) (p end : ℕ) (xs : List E)
    → count p (all_places K xs) ≡ 0
    → Chain K bus.blocks xs end
    → Chain K (modbus_free p bus).blocks xs end
unfolding modbus_free
modbus_free_elsewhere K bus p end xs out c = Chain-write K bus.blocks xs end p (free_block _) out c

pub count-released :
    (a : ℕ) (rs : List Register) (us : List ℕ)
    → count a (free_places (released rs us)) ≡ count a (reg_places rs) + count a (free_places us)
unfolding released all_places count
count-released a [] us = omega arith
count-released a (r ∷ rs) us = omega (arith, count-released a rs (r.at ∷ us))

pub length-released :
    (rs : List Register) (us : List ℕ)
    → length (free_places (released rs us)) ≡ length (reg_places rs) + length (free_places us)
unfolding released all_places
length-released [] us = omega arith
length-released (r ∷ rs) us = omega (arith, length-released rs (r.at ∷ us))

-- The bus after the registers are freed.
pub record Freed (bus bus' : Bus) (rs : List Register) (us : List ℕ) : Type 0 where
  pub free_start : bus'.first_free_offset ≡ first free_kind (released rs us) 0
  pub free_chain : Chain free_kind bus'.blocks (released rs us) 0
  pub same_devices : bus'.first_dev_offset ≡ bus.first_dev_offset
  pub others_same : (a : ℕ) → count a (reg_places rs) ≡ 0 → bus'.blocks a ≡ bus.blocks a

pub free_registers_lem :
    (k : ℕ) (rs : List Register) (us : List ℕ) (bus : Bus)
    → Chain reg_kind bus.blocks rs 0
    → bus.first_free_offset ≡ first free_kind us 0
    → Chain free_kind bus.blocks us 0
    → ((a : ℕ) → count a (reg_places rs) + count a (free_places us) ≤ 1)
    → length rs < k
    → (bus' : Bus) × (free_registers k (first reg_kind rs 0) bus ≡ some bus') × Freed bus bus' rs us
unfolding free_registers first all_places Chain as_reg released modbus_free count
free_registers_lem zero rs us bus c start free once i = absurd (omega (arith, i))
free_registers_lem (suc k) [] us bus c start free once i = (
  bus,
  refl,
  record {
    free_start = start;
    free_chain = free;
    same_devices = refl;
    others_same = λ a out. refl;
  },
)
free_registers_lem (suc k) (r ∷ rs) us bus (ne, e, c) start free once i =
    let out : count r.at (reg_places rs) + count r.at (free_places us) ≡ 0 =
      omega (arith, once r.at, count_self r.at (reg_places rs)) in
    let (bus', done, freed) =
      free_registers_lem k rs (r.at ∷ us) (modbus_free r.at bus)
        (modbus_free_elsewhere reg_kind bus r.at 0 rs (omega (arith, out)) c) refl
        (modbus_free-Chain bus r.at us ne (omega (arith, out)) start free)
        (λ a. omega (arith, once a)) (omega (arith, i)) in
    (
      bus',
      rw (ne→== r.at 0 ne, e) done,
      record {
        free_start = freed.free_start;
        free_chain = freed.free_chain;
        same_devices = freed.same_devices;
        others_same = λ a apart.
            freed.others_same a (omega (arith, apart))
            ∙ modbus_free_other bus r.at a (λ e. absurd (
                omega (
                  arith,
                  apart,
                  count_self a (reg_places rs),
                  ap (λ b. count a (b ∷ reg_places rs)) e,
                )));
      },
    )
