-- ===== src/ModbusMem/UnlinkReg.antt =====
-- core/modbus_mem.c: the loop of osm_modbus_reg_del that takes a register out of the chain.
use osm_firmware_v.Base.{
  ℕ, zero, suc, ◌+◌, ◌≤◌, ◌<◌, ◌≡◌, ◌≢◌, inl, inr, refl, sym, ◌∙◌, arith, List, [], ◌∷◌, ◌++◌, some,
  ==_refl, ne→==, length,
}
use osm_firmware_v.ModbusMem.{Memory, RegSlot, Block, reg_block, write, Bus, as_reg, modbus_free}
use osm_firmware_v.ModbusMem.Edit.{unlink_reg}
use osm_firmware_v.ModbusMem.Registry.{Register}
use osm_firmware_v.ModbusMem.Chain.{
  ℕ-cases, write_here, write_other, count, count_self, count_grows, all_places, first, Chain,
  Chain-write,
}
use osm_firmware_v.ModbusMem.Rep.{reg_slot, reg_kind, reg_places}

-- The memory `h'` has the registers linked past the one that is taken out, and differs from `h` at
-- registers before it only.
abbrev pub RegUnlinked : Memory → Memory → List Register → List Register → Type 0
RegUnlinked h h' before after =
    Chain reg_kind h' (before ++ after) 0 × ((a : ℕ) → count a (reg_places before) ≡ 0 → h' a ≡ h a)

pub cons_reg_count :
    (a : ℕ) (r : Register) (rs : List Register)
    → count a (reg_places (r ∷ rs)) ≡ count a (r.at ∷ reg_places rs)
unfolding all_places
cons_reg_count a r rs = refl

pub apart_reg :
    (a : ℕ) (r : Register) (rs : List Register)
    → count a (reg_places (r ∷ rs)) ≡ 0
    → (r.at ≢ a) × (count a (reg_places rs) ≡ 0)
unfolding all_places count
apart_reg a r rs out = elim (ℕ-cases r.at a) [
  | inl e ↦ absurd (ground (arith, out, e))
  | inr ne ↦ (ne, ground (arith, out, ne))
]

pub unlink_reg_lem :
    (k : ℕ) (r : Register) (rs : List Register) (p : ℕ) (t : RegSlot) (after : List Register)
    (bus : Bus)
    → Chain reg_kind bus.blocks (r ∷ rs) p
    → bus.blocks p ≡ reg_block t
    → t.next_reg_offset ≡ first reg_kind after 0
    → Chain reg_kind bus.blocks after 0
    → count p (reg_places (r ∷ rs)) ≡ 0
    → ((a : ℕ) → count a (reg_places (r ∷ rs)) + count a (reg_places after) ≤ 1)
    → length rs < k
    → (h' : Memory) × (unlink_reg k r.at p bus ≡ some (modbus_free p (record bus { blocks = h' })))
      × RegUnlinked bus.blocks h' (r ∷ rs) after
unfolding unlink_reg Chain first as_reg
unlink_reg_lem zero r rs p t after bus c at_p next rest out once i = absurd (omega (arith, i))
unlink_reg_lem (suc k) r [] p t after bus (ne, e, c) at_p next rest out once i =
    let b : Block = reg_block (reg_slot r (first reg_kind after 0)) in
    let alone : count r.at (reg_places after) ≡ 0 =
      omega (arith, once r.at, cons_reg_count r.at r [], count_self r.at (reg_places [])) in
    (
      write bus.blocks r.at b,
      rw (unlink_reg, ne→== r.at 0 ne, e, ==_refl p, at_p, next) refl,
      (
        (
          ne,
          write_here bus.blocks r.at b,
          Chain-write reg_kind bus.blocks after 0 r.at b alone rest,
        ),
        λ a apart. write_other bus.blocks r.at a b (λ same. (apart_reg a r [] apart).0 (sym same)),
      ),
    )
unlink_reg_lem (suc k) r (r' ∷ rs) p t after bus (ne, e, c) at_p next rest out once i =
    let out' : count p (reg_places (r' ∷ rs)) ≡ 0 = (apart_reg p r (r' ∷ rs) out).1 in
    let (h', done, (chain, same)) =
      unlink_reg_lem k r' rs p t after bus c at_p next rest out'
        (λ a.
          omega (
            arith,
            once a,
            cons_reg_count a r (r' ∷ rs),
            count_grows a r.at (reg_places (r' ∷ rs)),
          ))
        (omega (arith, i)) in
    (
      h',
      rw (unlink_reg, ne→== r.at 0 ne, e, ne→== r'.at p (apart_reg p r' rs out').0) done,
      (
        (
          ne,
          same r.at (
                omega (
                  arith,
                  once r.at,
                  cons_reg_count r.at r (r' ∷ rs),
                  count_self r.at (reg_places (r' ∷ rs)),
                ))
              ∙ e,
          chain,
        ),
        λ a apart. same a (apart_reg a r (r' ∷ rs) apart).1,
      ),
    )

-- A register that is not in the chain is not found.
pub unlink_reg_none :
    (k : ℕ) (rs : List Register) (p : ℕ) (bus : Bus)
    → Chain reg_kind bus.blocks rs 0
    → p ≢ 0
    → count p (reg_places rs) ≡ 0
    → length rs < k
    → unlink_reg k (first reg_kind rs 0) p bus ≡ some bus
unfolding unlink_reg Chain first as_reg
unlink_reg_none zero rs p bus c not_null out i = absurd (omega (arith, i))
unlink_reg_none (suc k) [] p bus c not_null out i = refl
unlink_reg_none (suc k) (r ∷ []) p bus (ne, e, c) not_null out i =
    rw (ne→== r.at 0 ne, e, ne→== 0 p (λ e. not_null (sym e)))
      (unlink_reg_none k [] p bus c not_null (apart_reg p r [] out).1 (omega (arith, i)))
unlink_reg_none (suc k) (r ∷ r' ∷ rs) p bus (ne, e, c) not_null out i =
    let out' : count p (reg_places (r' ∷ rs)) ≡ 0 = (apart_reg p r (r' ∷ rs) out).1 in
    rw (ne→== r.at 0 ne, e, ne→== r'.at p (apart_reg p r' rs out').0)
      (unlink_reg_none k (r' ∷ rs) p bus c not_null out' (omega (arith, i)))
