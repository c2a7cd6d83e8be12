-- ===== src/ModbusMem/Init.antt =====
-- core/modbus_mem.c: osm_modbus_bus_init makes the empty registry.
use osm_firmware_v.Base.{
  ℕ, zero, suc, ◌+◌, ◌*◌, ◌<◌, ◌≡◌, ◌≢◌, refl, ap, arith, List, [], ◌∷◌, ne→==, le→ltb, lt→ltb,
  length,
}
use osm_firmware_v.ModbusMem.{Settings, Bus, block_size, blob_version}
use osm_firmware_v.ModbusMem.Edit.{empty_block, bus_init}
use osm_firmware_v.ModbusMem.Registry.{Registry}
use osm_firmware_v.ModbusMem.Chain.{count, all_places, first, Chain}
use osm_firmware_v.ModbusMem.Rep.{dev_places, free_kind, free_places, blocks_from, all_blocks, Rep}

-- No devices, and every block free.
abbrev pub empty_registry : Registry
empty_registry = record { devices = []; unused = all_blocks }

pub free_places_lem : (us : List ℕ) → free_places us ≡ us
unfolding all_places
free_places_lem [] = refl
free_places_lem (u ∷ us) = ap (λ zs. u ∷ zs) (free_places_lem us)

pub blocks_from-Chain :
    (n p : ℕ) → 0 < p → p + n * 16 ≡ 1024 → Chain free_kind empty_block (blocks_from n p) 0
unfolding blocks_from Chain first
blocks_from-Chain zero p i e = tt
blocks_from-Chain (suc zero) p i e =
    (λ z. absurd (omega (arith, i, z)), rw (lt→ltb 1008 (p + 16) (omega (arith, e))) refl, tt)
blocks_from-Chain (suc (suc n)) p i e = (
  λ z. absurd (omega (arith, i, z)),
  rw (le→ltb 1008 (p + 16) (omega (arith, e))) refl,
  blocks_from-Chain (suc n) (p + 16) (omega arith) (omega (arith, e)),
)

pub length-blocks_from : (n p : ℕ) → length (blocks_from n p) ≡ n
unfolding blocks_from
length-blocks_from zero p = refl
length-blocks_from (suc n) p = ap suc (length-blocks_from n (p + 16))

pub empty_places :
    (a : ℕ) → count a (dev_places []) + count a (free_places all_blocks) ≡ count a all_blocks
unfolding all_places count
empty_places a = omega (arith, ap (count a) (free_places_lem all_blocks))

pub empty_total : length (dev_places []) + length (free_places all_blocks) ≡ 63
unfolding all_places
empty_total = omega (arith, ap length (free_places_lem all_blocks), length-blocks_from 63 16)

-- A new bus.
pub empty_lem :
    (fresh : Settings)
    → Rep
        (record {
          settings = fresh;
          first_dev_offset = 0;
          first_free_offset = block_size;
          blocks = empty_block;
        })
        empty_registry
unfolding Chain first blocks_from
empty_lem fresh = record {
  dev_start = refl;
  free_start = refl;
  dev_chain = tt;
  free_chain = blocks_from-Chain 63 16 (omega arith) (omega arith);
  owned = empty_places;
  total = empty_total;
}

-- A bus of another version becomes empty.
pub bus_init_lem :
    (fresh : Settings) (bus : Bus)
    → bus.settings.version ≢ blob_version
    → Rep (bus_init fresh bus) empty_registry
unfolding bus_init
bus_init_lem fresh bus old = rw (ne→== bus.settings.version blob_version old) (empty_lem fresh)
