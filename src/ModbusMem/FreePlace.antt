-- ===== src/ModbusMem/FreePlace.antt =====
-- core/modbus_mem.c: the first free place of a bus that holds a registry, and _modbus_allocate_block.
use osm_firmware_v.Base.{
  some, ne→==, ℕ, ◌+◌, ◌≡◌, ◌≢◌, refl, ap, sym, ◌∙◌, arith, List, [], ◌∷◌, ◌==◌,
}
use osm_firmware_v.ModbusMem.{as_free, allocate_block, free_block, Bus}
use osm_firmware_v.ModbusMem.Registry.{Device}
use osm_firmware_v.ModbusMem.Chain.{count, count_self, all_places, first, Chain}
use osm_firmware_v.ModbusMem.Rep.{dev_places, free_kind, free_places, Rep, once}

-- The first free place is in no other use.
module _ (bus : Bus) (ds : List Device) (p : ℕ) (ps : List ℕ)
    (rep : Rep bus (record { devices = ds; unused = p ∷ ps })) where
  pub free_not_null : p ≢ 0
  unfolding Chain
  free_not_null = rep.free_chain.0

  pub free_cell : bus.blocks p ≡ free_block (first free_kind ps 0)
  unfolding Chain
  free_cell = rep.free_chain.1

  pub free_rest : Chain free_kind bus.blocks ps 0
  unfolding Chain
  free_rest = rep.free_chain.2

  pub free_count : (a : ℕ) → count a (free_places (p ∷ ps)) ≡ count a (p ∷ free_places ps)
  unfolding all_places
  free_count a = refl

  pub free_unowned : count p (dev_places ds) + count p (free_places ps) ≡ 0
  free_unowned = omega (
    arith,
    once bus (record { devices = ds; unused = p ∷ ps }) rep p,
    free_count p,
    count_self p (free_places ps),
  )

  pub allocate_block-some :
      allocate_block bus ≡ some (p, record bus { first_free_offset = first free_kind ps 0 })
  unfolding allocate_block as_free first
  allocate_block-some =
      let at_p : bus.first_free_offset ≡ p = rep.free_start in
      let block : bus.blocks bus.first_free_offset ≡ free_block (first free_kind ps 0) =
        ap bus.blocks at_p ∙ free_cell in
      let ne : bus.first_free_offset ≢ 0 = λ e. free_not_null (sym at_p ∙ e) in
      rw (ne→== bus.first_free_offset 0 ne, block)
        (ap (λ q. some (q, record bus { first_free_offset = first free_kind ps 0 })) at_p)

pub allocate_block-none :
    (bus : Bus) (ds : List Device)
    → Rep bus (record { devices = ds; unused = [] })
    → allocate_block bus ≡ some (0, bus)
unfolding allocate_block first
allocate_block-none bus ds rep = rw (ap (λ p. p == 0) rep.free_start) refl
