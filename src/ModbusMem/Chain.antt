-- ===== src/ModbusMem/Chain.antt =====
-- Chains of blocks: what a list of entries looks like in the memory of core/modbus_mem.c.
use osm_firmware_v.Base.{
  ℕ, suc, ◌+◌, ◌≤◌, ◌<◌, ◌≡◌, ◌≢◌, ◌⊎◌, inl, inr, Bool-cases, ==→ne, refl, ap, sym, subst, arith,
  List, [], ◌∷◌, ◌++◌, ◌==◌, ==_refl, ne→==, if◌then◌else◌, length, length-append,
}
use osm_firmware_v.ModbusMem.{Memory, Block, write}

pub ℕ-cases : (a b : ℕ) → (a ≡ b) ⊎ (a ≢ b)
ℕ-cases a b = elim (Bool-cases (a == b)) [
  | inl e ↦ inl (ground (arith, e))
  | inr e ↦ inr (==→ne a b e)
]

-- How often a place stands in a list.
unfoldable pub count : ℕ → List ℕ → ℕ
count a [] = 0
count a (x ∷ xs) = (if x == a then 1 else 0) + count a xs

pub count-append : (a : ℕ) (xs ys : List ℕ) → count a (xs ++ ys) ≡ count a xs + count a ys
unfolding count
count-append a [] ys = omega arith
count-append a (x ∷ xs) ys = omega (arith, count-append a xs ys)

pub count_self : (a : ℕ) (xs : List ℕ) → count a (a ∷ xs) ≡ suc (count a xs)
unfolding count
count_self a xs = ground arith

pub not_counted : (a b : ℕ) (xs : List ℕ) → count a (b ∷ xs) ≡ 0 → a ≢ b
unfolding count
not_counted a b xs out e = absurd (ground (arith, out, e))

pub count_other : (a b : ℕ) (xs : List ℕ) → b ≢ a → count a (b ∷ xs) ≡ count a xs
unfolding count
count_other a b xs ne = ground arith

pub count_grows : (a b : ℕ) (xs : List ℕ) → count a xs ≤ count a (b ∷ xs)
unfolding count
count_grows a b xs = ground arith

pub write_here : (h : Memory) (p : ℕ) (b : Block) → write h p b p ≡ b
write_here h p b = rw (==_refl p) refl

pub write_other : (h : Memory) (p a : ℕ) (b : Block) → a ≢ p → write h p b a ≡ h a
write_other h p a b ne = rw (ne→== a p ne) refl

-- A kind of entry: its place, all the places that it takes, and its form in memory when the next
-- entry stands at a given place. The form depends on its own places only.
pub record Kind (E : Type 0) : Type 1 where
  pub at : E → ℕ
  pub places : E → List ℕ
  pub Cell : Memory → E → ℕ → Type 0
  pub frame :
      (h h' : Memory) (e : E) (next : ℕ)
      → ((a : ℕ) → 0 < count a (places e) → h' a ≡ h a)
      → Cell h e next
      → Cell h' e next

module _ {E : Type 0} (K : Kind E) where
  unfoldable pub all_places : List E → List ℕ
  all_places [] = []
  all_places (e ∷ es) = K.places e ++ all_places es

  -- Where a chain that leads to `end` begins.
  unfoldable pub first : List E → ℕ → ℕ
  first [] end = end
  first (e ∷ es) end = K.at e

  unfoldable pub Chain : Memory → List E → ℕ → Type 0
  Chain h [] end = Unit
  Chain h (e ∷ es) end = (K.at e ≢ 0) × K.Cell h e (first es end) × Chain h es end

  pub all_places-append :
      (xs ys : List E) (a : ℕ)
      → count a (all_places (xs ++ ys)) ≡ count a (all_places xs) + count a (all_places ys)
  unfolding all_places count
  all_places-append [] ys a = omega arith
  all_places-append (x ∷ xs) ys a = omega (
    arith,
    all_places-append xs ys a,
    count-append a (K.places x) (all_places (xs ++ ys)),
    count-append a (K.places x) (all_places xs),
  )

  pub length_places :
      (xs : List E) → ((e : E) → 0 < length (K.places e)) → length xs ≤ length (all_places xs)
  unfolding all_places
  length_places [] some_place = omega arith
  length_places (x ∷ xs) some_place =
      omega (
        arith,
        some_place x,
        length_places xs some_place,
        length-append (K.places x) (all_places xs),
      )

  pub first-append : (xs ys : List E) (end : ℕ) → first (xs ++ ys) end ≡ first xs (first ys end)
  unfolding first
  first-append [] ys end = refl
  first-append (x ∷ xs) ys end = refl

  pub Chain-append :
      (h : Memory) (xs ys : List E) (end : ℕ)
      → Chain h xs (first ys end)
      → Chain h ys end
      → Chain h (xs ++ ys) end
  unfolding Chain
  Chain-append h [] ys end c d = d
  Chain-append h (x ∷ xs) ys end (ne, cell, c) d =
      (ne, subst (K.Cell h x) (sym (first-append xs ys end)) cell, Chain-append h xs ys end c d)

  pub Chain-split :
      (h : Memory) (xs ys : List E) (end : ℕ)
      → Chain h (xs ++ ys) end
      → Chain h xs (first ys end) × Chain h ys end
  unfolding Chain
  Chain-split h [] ys end c = (tt, c)
  Chain-split h (x ∷ xs) ys end (ne, cell, c) =
      let (front, back) = Chain-split h xs ys end c in
      ((ne, subst (K.Cell h x) (first-append xs ys end) cell, front), back)

  pub Chain-frame :
      (h h' : Memory) (xs : List E) (end : ℕ)
      → ((a : ℕ) → 0 < count a (all_places xs) → h' a ≡ h a)
      → Chain h xs end
      → Chain h' xs end
  unfolding Chain all_places
  Chain-frame h h' [] end same c = tt
  Chain-frame h h' (x ∷ xs) end same (ne, cell, c) = (
    ne,
    K.frame h h' x (first xs end)
        (λ a i. same a (omega (arith, i, count-append a (K.places x) (all_places xs)))) cell,
    Chain-frame h h' xs end
        (λ a i. same a (omega (arith, i, count-append a (K.places x) (all_places xs)))) c,
  )

  -- A write elsewhere.
  pub Chain-write :
      (h : Memory) (xs : List E) (end p : ℕ) (b : Block)
      → count p (all_places xs) ≡ 0
      → Chain h xs end
      → Chain (write h p b) xs end
  Chain-write h xs end p b out c =
      Chain-frame h (write h p b) xs end (write_elsewhere h xs p b out) c
    where
      write_elsewhere :
          (h : Memory) (xs : List E) (p : ℕ) (b : Block)
          → count p (all_places xs) ≡ 0
          → (a : ℕ) → 0 < count a (all_places xs)
          → write h p b a ≡ h a
      write_elsewhere h xs p b out a i = ground (arith, ap (λ q. count q (all_places xs)))
