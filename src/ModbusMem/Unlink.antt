-- ===== src/ModbusMem/Unlink.antt =====
-- core/modbus_mem.c: the loop of osm_modbus_dev_del that takes a device out of the chain.
use osm_firmware_v.Base.{
  ℕ, zero, suc, ◌+◌, ◌≤◌, ◌<◌, ◌≡◌, ◌≢◌, refl, ap, arith, List, [], ◌∷◌, ◌++◌, some, ==_refl, ne→==,
  length,
}
use osm_firmware_v.ModbusMem.{Memory, DevSlot, Block, dev_block, write, Bus, as_dev, modbus_free}
use osm_firmware_v.ModbusMem.Edit.{unlink_dev}
use osm_firmware_v.ModbusMem.Registry.{Device}
use osm_firmware_v.ModbusMem.Chain.{
  write_here, write_other, count, count-append, count_self, all_places, first, Chain, Chain-write,
}
use osm_firmware_v.ModbusMem.Rep.{reg_kind, reg_places, dev_slot, dev_kind, dev_places, DevCell}

-- The memory `h'` has the devices linked past the one that is taken out, and differs from `h` at
-- devices before it only.
abbrev pub Unlinked : Memory → Memory → List Device → List Device → Type 0
Unlinked h h' before post =
    Chain dev_kind h' (before ++ post) 0 × ((a : ℕ) → count a (dev_places before) ≡ 0 → h' a ≡ h a)

pub cons_count :
    (a : ℕ) (d : Device) (ds : List Device)
    → count a (dev_places (d ∷ ds)) ≡ count a (d.at ∷ reg_places d.regs) + count a (dev_places ds)
unfolding all_places
cons_count a d ds = count-append a (d.at ∷ reg_places d.regs) (dev_places ds)

-- A device leads to the first one behind the device that is taken out.
pub relink_last :
    (h : Memory) (m : Device) (p : ℕ) (post : List Device)
    → DevCell h m p
    → m.at ≢ 0
    → Chain dev_kind h post 0
    → ((a : ℕ) → count a (dev_places (m ∷ [])) + count a (dev_places post) ≤ 1)
    → Unlinked h (write h m.at (dev_block (dev_slot m (first dev_kind post 0)))) (m ∷ []) post
unfolding Chain first all_places
relink_last h m p post (e, regs) ne after once =
    let b : Block = dev_block (dev_slot m (first dev_kind post 0)) in
    let alone : count m.at (reg_places m.regs) + count m.at (dev_places post) ≡ 0 =
      omega (arith, once m.at, cons_count m.at m [], count_self m.at (reg_places m.regs)) in
    (
      (
        ne,
        (write_here h m.at b, Chain-write reg_kind h m.regs 0 m.at b (omega (arith, alone)) regs),
        Chain-write dev_kind h post 0 m.at b (omega (arith, alone)) after,
      ),
      λ a out. write_other h m.at a b (λ at_a. absurd (
          omega (
            arith,
            out,
            cons_count a m [],
            count_self a (reg_places m.regs),
            ap (λ q. count a (q ∷ reg_places m.regs)) at_a,
          ))),
    )

-- A device before those that change.
pub relink_before :
    (h h' : Memory) (m m' : Device) (ms post : List Device)
    → DevCell h m m'.at
    → m.at ≢ 0
    → ((a : ℕ) → count a (dev_places (m ∷ m' ∷ ms)) + count a (dev_places post) ≤ 1)
    → Unlinked h h' (m' ∷ ms) post
    → Unlinked h h' (m ∷ m' ∷ ms) post
unfolding Chain first
relink_before h h' m m' ms post cell ne once (chain, same) = (
  (
    ne,
    dev_kind.frame h h' m m'.at
        (λ a mine. same a (omega (arith, mine, once a, cons_count a m (m' ∷ ms)))) cell,
    chain,
  ),
  λ a out. same a (omega (arith, out, cons_count a m (m' ∷ ms))),
)

pub unlink_dev_lem :
    (k : ℕ) (m : Device) (ms : List Device) (p : ℕ) (d : DevSlot) (post : List Device) (bus : Bus)
    → Chain dev_kind bus.blocks (m ∷ ms) p
    → bus.blocks p ≡ dev_block d
    → d.next_dev_offset ≡ first dev_kind post 0
    → Chain dev_kind bus.blocks post 0
    → p ≢ 0
    → count p (dev_places (m ∷ ms)) ≡ 0
    → ((a : ℕ) → count a (dev_places (m ∷ ms)) + count a (dev_places post) ≤ 1)
    → length ms < k
    → (h' : Memory) × (unlink_dev k m.at p bus ≡ some (modbus_free p (record bus { blocks = h' })))
      × Unlinked bus.blocks h' (m ∷ ms) post
unfolding unlink_dev Chain first as_dev
unlink_dev_lem zero m ms p d post bus c at_p next after not_null out once i =
    absurd (omega (arith, i))
unlink_dev_lem (suc k) m [] p d post bus (ne, (e, regs), c) at_p next after not_null out once i = (
  write bus.blocks m.at (dev_block (dev_slot m (first dev_kind post 0))),
  rw (unlink_dev, ne→== m.at 0 ne, e, ne→== p 0 not_null, ==_refl p, at_p, next) refl,
  relink_last bus.blocks m p post (e, regs) ne after once,
)
unlink_dev_lem (suc k) m (m' ∷ ms) p d post bus (ne, (e, regs), c) at_p next after not_null out once
      i =
    let other : m'.at ≢ p = λ at_p'. absurd (
      omega (
        arith,
        out,
        cons_count p m (m' ∷ ms),
        cons_count p m' ms,
        count_self p (reg_places m'.regs),
        ap (λ q. count p (q ∷ reg_places m'.regs)) at_p',
      )) in
    let (h', done, unlinked) =
      unlink_dev_lem k m' ms p d post bus c at_p next after not_null
        (omega (arith, out, cons_count p m (m' ∷ ms)))
        (λ a. omega (arith, once a, cons_count a m (m' ∷ ms))) (omega (arith, i)) in
    (
      h',
      rw (unlink_dev, ne→== m.at 0 ne, e, ne→== m'.at 0 c.0, ne→== m'.at p other) done,
      relink_before bus.blocks h' m m' ms post (e, regs) ne once unlinked,
    )
