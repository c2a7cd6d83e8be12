-- ===== src/ModbusMem/RegPlace.antt =====
-- core/modbus_mem.c: a register is known by its place.
use osm_firmware_v.Base.{
  ℕ, ◌≡◌, ◌≢◌, inl, inr, refl, ap, subst, sym, ◌∙◌, arith, Bool, true, false, List, [], ◌∷◌, ◌++◌,
  Bool-cases, ◌==◌, ==_refl, ==→ne, ne→==, ==_iff, ltb, if◌then◌else◌,
}
use osm_firmware_v.Base.Strings.{strlen, same_chars}
use osm_firmware_v.ModbusMem.{Memory, RegSlot, reg_block, name_len}
use osm_firmware_v.ModbusMem.Registry.{
  Register, Device, first_reg, named, register_named, has_reg, drop_reg, unit_in, reg_unit,
}
use osm_firmware_v.ModbusMem.Chain.{count, count_other, all_places, first, Chain}
use osm_firmware_v.ModbusMem.Rep.{reg_slot, reg_kind, reg_places, dev_kind}
use osm_firmware_v.ModbusMem.UnlinkReg.{apart_reg}

-- Some device has a register at the place.
unfoldable pub known_reg : ℕ → List Device → Bool
known_reg p [] = false
known_reg p (d ∷ ds) = if has_reg p d.regs then true else known_reg p ds

-- The block of a register of the list.
abbrev pub Slot : Memory → ℕ → ℕ → Type 0
Slot h p unit_id = (s : RegSlot) × (h p ≡ reg_block s) × (s.reg.unit_id ≡ unit_id)

pub has_reg-Slot :
    (h : Memory) (p : ℕ) (rs : List Register)
    → Chain reg_kind h rs 0
    → has_reg p rs ≡ true
    → Slot h p (unit_in p rs)
unfolding has_reg unit_in Chain
has_reg-Slot h p [] c has = absurd (ground (arith, has))
has_reg-Slot h p (r ∷ rs) (ne, e, c) has = elim (Bool-cases (r.at == p)) [
  | inl here ↦
      let at_p : r.at ≡ p = (==_iff r.at p).0 here in
      rw (here) (reg_slot r (first reg_kind rs 0), ap h (sym at_p) ∙ e, refl)
  | inr there ↦ rw (there) (has_reg-Slot h p rs c (rw (there) at has))
]

pub known_reg-Slot :
    (h : Memory) (p : ℕ) (ds : List Device)
    → Chain dev_kind h ds 0
    → known_reg p ds ≡ true
    → Slot h p (reg_unit p ds)
unfolding known_reg reg_unit Chain
known_reg-Slot h p [] c known = absurd (ground (arith, known))
known_reg-Slot h p (d ∷ ds) (ne, (e, regs), c) known = elim (Bool-cases (has_reg p d.regs)) [
  | inl here ↦ rw (here) (has_reg-Slot h p d.regs regs here)
  | inr there ↦ rw (there) (known_reg-Slot h p ds c (rw (there) at known))
]

-- The registers around a place.
pub has_reg-split :
    (p : ℕ) (rs : List Register)
    → has_reg p rs ≡ true
    → (xs : List Register) × (r : Register) × (ys : List Register) × (rs ≡ xs ++ r ∷ ys)
      × (r.at ≡ p)
unfolding has_reg
has_reg-split p [] has = absurd (ground (arith, has))
has_reg-split p (r ∷ rs) has = elim (Bool-cases (r.at == p)) [
  | inl here ↦ ([], r, rs, refl, (==_iff r.at p).0 here)
  | inr there ↦
      let (xs, r', ys, e, at_p) = has_reg-split p rs (rw (there) at has) in
      (r ∷ xs, r', ys, ap (λ zs. r ∷ zs) e, at_p)
]

pub has_reg-none : (p : ℕ) (rs : List Register) → has_reg p rs ≡ false → count p (reg_places rs) ≡ 0
unfolding has_reg all_places count
has_reg-none p [] has = refl
has_reg-none p (r ∷ rs) has = elim (Bool-cases (r.at == p)) [
  | inl here ↦ absurd (ground (arith, rw (here) at has))
  | inr there ↦
      count_other p r.at (reg_places rs) (==→ne r.at p there)
      ∙ has_reg-none p rs (rw (there) at has)
]

pub drop_reg_behind :
    (r : Register) (ys xs : List Register)
    → count r.at (reg_places xs) ≡ 0
    → drop_reg r.at (xs ++ r ∷ ys) ≡ xs ++ ys
unfolding drop_reg
drop_reg_behind r ys [] out = rw (==_refl r.at) refl
drop_reg_behind r ys (x ∷ xs) out =
    let (ne, out') = apart_reg r.at x xs out in
    rw (ne→== x.at r.at ne) (ap (λ zs. x ∷ zs) (drop_reg_behind r ys xs out'))

pub later_reg :
    (p : ℕ) (r : Register) (rs : List Register) → has_reg p rs ≡ true → has_reg p (r ∷ rs) ≡ true
unfolding has_reg
later_reg p r rs has = elim (Bool-cases (r.at == p)) [
  | inl here ↦ rw (here) refl
  | inr there ↦ rw (there) has
]

-- A register that a search finds is known.
pub first_reg-has_reg :
    (test : Register → Bool) (rs : List Register)
    → first_reg test rs ≢ 0
    → has_reg (first_reg test rs) rs ≡ true
unfolding first_reg has_reg
first_reg-has_reg test [] ne = absurd (ne refl)
first_reg-has_reg test (r ∷ rs) ne = elim (Bool-cases (test r)) [
  | inl found ↦ rw (found, ==_refl r.at) refl
  | inr other ↦
      let e : first_reg test (r ∷ rs) ≡ first_reg test rs = rw (other) refl in
      subst (λ q. has_reg q (r ∷ rs) ≡ true) (sym e)
        (later_reg (first_reg test rs) r rs (first_reg-has_reg test rs (rw (other) at ne)))
]

pub named-has_reg :
    (name : List ℕ) (rs : List Register) → named name rs ≢ 0 → has_reg (named name rs) rs ≡ true
named-has_reg name rs ne = elim (Bool-cases (ltb name_len (strlen name))) [
  | inl long ↦ absurd (ne (rw (long) refl))
  | inr short ↦
      rw (short) (first_reg-has_reg (λ r. same_chars name r.name name_len) rs (rw (short) at ne))
]

pub later_device :
    (p : ℕ) (d : Device) (ds : List Device) → known_reg p ds ≡ true → known_reg p (d ∷ ds) ≡ true
unfolding known_reg
later_device p d ds known = elim (Bool-cases (has_reg p d.regs)) [
  | inl here ↦ rw (here) refl
  | inr there ↦ rw (there) known
]

pub register_named-known_reg :
    (name : List ℕ) (ds : List Device)
    → register_named name ds ≢ 0
    → known_reg (register_named name ds) ds ≡ true
unfolding register_named known_reg
register_named-known_reg name [] ne = absurd (ne refl)
register_named-known_reg name (d ∷ ds) ne = elim (Bool-cases (named name d.regs == 0)) [
  | inl other ↦
      let e : register_named name (d ∷ ds) ≡ register_named name ds = rw (other) refl in
      subst (λ q. known_reg q (d ∷ ds) ≡ true) (sym e)
        (later_device (register_named name ds) d ds
          (register_named-known_reg name ds (rw (other) at ne)))
  | inr here ↦ rw (here, named-has_reg name d.regs (==→ne (named name d.regs) 0 here)) refl
]
