-- ===== src/ModbusMem/Rep.antt =====
-- The registry in the memory of core/modbus_mem.c: the blocks of its devices, registers and free
-- places, and that every block of the memory is in use once.
use osm_firmware_v.Base.{
  inl, inr, ℕ, zero, suc, ◌+◌, ◌≤◌, ◌<◌, ◌≡◌, ◌≢◌, refl, ◌∙◌, arith, List, [], ◌∷◌, length,
}
use osm_firmware_v.ModbusMem.{
  Memory, RegSlot, DevSlot, free_block, dev_block, reg_block, Bus, block_count, block_size,
}
use osm_firmware_v.ModbusMem.Registry.{Register, Device, Registry}
use osm_firmware_v.ModbusMem.Chain.{
  ℕ-cases, count, count_grows, count_self, count_other, Kind, all_places, first, Chain, Chain-frame,
}

abbrev pub reg_slot : Register → ℕ → RegSlot
reg_slot r next = record { name = r.name; reg = r.reg; next_reg_offset = next }

pub reg_frame :
    (h h' : Memory) (r : Register) (next : ℕ)
    → ((a : ℕ) → 0 < count a (r.at ∷ []) → h' a ≡ h a)
    → h r.at ≡ reg_block (reg_slot r next)
    → h' r.at ≡ reg_block (reg_slot r next)
reg_frame h h' r next same e = same r.at (omega (arith, count_self r.at [])) ∙ e

abbrev pub reg_kind : Kind Register
reg_kind = record {
  at = λ r. r.at;
  places = λ r. r.at ∷ [];
  Cell = λ h r next. h r.at ≡ reg_block (reg_slot r next);
  frame = reg_frame;
}

-- The places of all the registers.
abbrev pub reg_places : List Register → List ℕ
reg_places rs = all_places reg_kind rs

abbrev pub dev_slot : Device → ℕ → DevSlot
dev_slot d next = record {
  name = d.name;
  dev = d.dev;
  first_reg_offset = first reg_kind d.regs 0;
  next_dev_offset = next;
}

-- A device owns its block and those of its registers.
abbrev pub DevCell : Memory → Device → ℕ → Type 0
DevCell h d next = (h d.at ≡ dev_block (dev_slot d next)) × Chain reg_kind h d.regs 0

pub dev_frame :
    (h h' : Memory) (d : Device) (next : ℕ)
    → ((a : ℕ) → 0 < count a (d.at ∷ reg_places d.regs) → h' a ≡ h a)
    → DevCell h d next
    → DevCell h' d next
dev_frame h h' d next same (e, c) = (
  same d.at (omega (arith, count_self d.at (reg_places d.regs))) ∙ e,
  Chain-frame reg_kind h h' d.regs 0
      (λ a i. same a (omega (arith, i, count_grows a d.at (reg_places d.regs)))) c,
)

abbrev pub dev_kind : Kind Device
dev_kind = record {
  at = λ d. d.at;
  places = λ d. d.at ∷ reg_places d.regs;
  Cell = DevCell;
  frame = dev_frame;
}

abbrev pub dev_places : List Device → List ℕ
dev_places ds = all_places dev_kind ds

pub free_frame :
    (h h' : Memory) (p next : ℕ)
    → ((a : ℕ) → 0 < count a (p ∷ []) → h' a ≡ h a)
    → h p ≡ free_block next
    → h' p ≡ free_block next
free_frame h h' p next same e = same p (omega (arith, count_self p [])) ∙ e

abbrev pub free_kind : Kind ℕ
free_kind = record {
  at = λ p. p;
  places = λ p. p ∷ [];
  Cell = λ h p next. h p ≡ free_block next;
  frame = free_frame;
}

abbrev pub free_places : List ℕ → List ℕ
free_places ps = all_places free_kind ps

-- The places of `n` blocks from `p` on.
unfoldable pub blocks_from : ℕ → ℕ → List ℕ
blocks_from zero p = []
blocks_from (suc n) p = p ∷ blocks_from n (p + block_size)

abbrev pub all_blocks : List ℕ
all_blocks = blocks_from block_count block_size

-- The bus holds the registry.
pub record Rep (bus : Bus) (reg : Registry) : Type 0 where
  pub dev_start : bus.first_dev_offset ≡ first dev_kind reg.devices 0
  pub free_start : bus.first_free_offset ≡ first free_kind reg.unused 0
  pub dev_chain : Chain dev_kind bus.blocks reg.devices 0
  pub free_chain : Chain free_kind bus.blocks reg.unused 0
  pub owned :
      (a : ℕ)
      → count a (dev_places reg.devices) + count a (free_places reg.unused) ≡ count a all_blocks
  pub total : length (dev_places reg.devices) + length (free_places reg.unused) ≡ block_count

pub blocks_from_before : (n p a : ℕ) → a < p → count a (blocks_from n p) ≡ 0
unfolding blocks_from count
blocks_from_before zero p a i = refl
blocks_from_before (suc n) p a i =
    let ne : p ≢ a = λ e. absurd (omega (arith, e, i)) in
    count_other a p (blocks_from n (p + 16)) ne ∙ blocks_from_before n (p + 16) a (omega (arith, i))

pub blocks_from_once : (n p a : ℕ) → count a (blocks_from n p) ≤ 1
unfolding blocks_from count
blocks_from_once zero p a = omega arith
blocks_from_once (suc n) p a =
    let once : count a (blocks_from n (p + 16)) ≤ 1 = blocks_from_once n (p + 16) a in
    elim (ℕ-cases p a) [
      | inl e ↦
          let none_left : count a (blocks_from n (p + 16)) ≡ 0 =
            blocks_from_before n (p + 16) a (omega (arith, e)) in
          ground (arith, e, none_left)
      | inr ne ↦ ground (arith, once, ne)
    ]

module _ (bus : Bus) (reg : Registry) (rep : Rep bus reg) where
  -- No place is in use twice.
  pub once : (a : ℕ) → count a (dev_places reg.devices) + count a (free_places reg.unused) ≤ 1
  once a = omega (arith, rep.owned a, blocks_from_once 63 16 a)
