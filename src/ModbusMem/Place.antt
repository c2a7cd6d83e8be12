-- ===== src/ModbusMem/Place.antt =====
-- core/modbus_mem.c: a device, or a register, is known by its place.
use osm_firmware_v.Base.{
  ℕ, ◌+◌, ◌≡◌, ◌≢◌, Bool-cases, inl, inr, refl, ap, sym, ◌∙◌, arith, Bool, List, [], ◌∷◌, ◌++◌, ltb,
  ◌==◌, ==_refl, ne→==,
}
use osm_firmware_v.Base.Strings.{strlen, same_chars}
use osm_firmware_v.ModbusMem.{name_len}
use osm_firmware_v.ModbusMem.Registry.{
  by_id, by_name, Device, first_dev, regs_at, unit_at, change, drop_dev,
}
use osm_firmware_v.ModbusMem.Chain.{count, count-append, count_self, all_places}
use osm_firmware_v.ModbusMem.Rep.{reg_places, dev_places}

-- A device of the list stands at a place.
abbrev pub Stands : ℕ → List Device → Type 0
Stands p ds =
    (pre : List Device) × (d : Device) × (post : List Device) × (ds ≡ pre ++ d ∷ post) × (d.at ≡ p)

later : {p : ℕ} {ds : List Device} (x : Device) → Stands p ds → Stands p (x ∷ ds)
later x (pre, d, post, e, at_p) = (x ∷ pre, d, post, ap (λ ds. x ∷ ds) e, at_p)

-- A device that a search finds stands at its place.
pub first_dev-Stands :
    (test : Device → Bool) (ds : List Device)
    → first_dev test ds ≢ 0
    → Stands (first_dev test ds) ds
unfolding first_dev
first_dev-Stands test [] ne = absurd (ne refl)
first_dev-Stands test (d ∷ ds) ne = elim (Bool-cases (test d)) [
  | inl yes_it ↦ rw (yes_it) ([], d, ds, refl, refl)
  | inr not_it ↦ rw (not_it) (later d (first_dev-Stands test ds (λ e. ne (rw (not_it) e))))
]

pub other_devices :
    (p : ℕ) (x : Device) (xs : List Device)
    → count p (dev_places (x ∷ xs)) ≡ 0
    → (x.at ≢ p) × (count p (dev_places xs) ≡ 0)
unfolding all_places
other_devices p x xs out =
    let all : count p (x.at ∷ reg_places x.regs) + count p (dev_places xs) ≡ 0 =
      sym (count-append p (x.at ∷ reg_places x.regs) (dev_places xs)) ∙ out in
    (
      λ e. absurd (
          omega (
            arith,
            all,
            count_self p (reg_places x.regs),
            ap (λ a. count p (a ∷ reg_places x.regs)) e,
          )),
      omega (arith, all),
    )

-- The functions that look for the place of `d` reach it, behind the devices before it.
module _ (d : Device) (post : List Device) where
  pub regs_at_behind :
      (pre : List Device)
      → count d.at (dev_places pre) ≡ 0
      → regs_at d.at (pre ++ d ∷ post) ≡ d.regs
  unfolding regs_at
  regs_at_behind [] out = rw (==_refl d.at) refl
  regs_at_behind (x ∷ xs) out =
      let (ne, out') = other_devices d.at x xs out in
      rw (ne→== x.at d.at ne) (regs_at_behind xs out')

  pub unit_at_behind :
      (pre : List Device)
      → count d.at (dev_places pre) ≡ 0
      → unit_at d.at (pre ++ d ∷ post) ≡ d.dev.unit_id
  unfolding unit_at
  unit_at_behind [] out = rw (==_refl d.at) refl
  unit_at_behind (x ∷ xs) out =
      let (ne, out') = other_devices d.at x xs out in
      rw (ne→== x.at d.at ne) (unit_at_behind xs out')

  pub change_behind :
      (f : Device → Device) (pre : List Device)
      → count d.at (dev_places pre) ≡ 0
      → change d.at f (pre ++ d ∷ post) ≡ pre ++ f d ∷ post
  unfolding change
  change_behind f [] out = rw (==_refl d.at) refl
  change_behind f (x ∷ xs) out =
      let (ne, out') = other_devices d.at x xs out in
      rw (ne→== x.at d.at ne) (ap (λ ds. x ∷ ds) (change_behind f xs out'))

  pub drop_dev_behind :
      (pre : List Device)
      → count d.at (dev_places pre) ≡ 0
      → drop_dev d.at (pre ++ d ∷ post) ≡ pre ++ post
  unfolding drop_dev
  drop_dev_behind [] out = rw (==_refl d.at) refl
  drop_dev_behind (x ∷ xs) out =
      let (ne, out') = other_devices d.at x xs out in
      rw (ne→== x.at d.at ne) (ap (λ ds. x ∷ ds) (drop_dev_behind xs out'))

pub by_id-Stands :
    (unit_id : ℕ) (ds : List Device) → by_id unit_id ds ≢ 0 → Stands (by_id unit_id ds) ds
unfolding by_id
by_id-Stands unit_id ds ne = first_dev-Stands (λ d. d.dev.unit_id == unit_id) ds ne

pub by_name-Stands :
    (name : List ℕ) (ds : List Device) → by_name name ds ≢ 0 → Stands (by_name name ds) ds
unfolding by_name
by_name-Stands name ds ne = elim (Bool-cases (ltb name_len (strlen name))) [
  | inl long ↦ absurd (ne (rw (long) refl))
  | inr short ↦
      rw (short) (first_dev-Stands (λ d. same_chars name d.name name_len) ds (rw (short) at ne))
]
