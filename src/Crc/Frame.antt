-- ===== src/Crc/Frame.antt =====
-- The checksum `osm_modbus_crc` of core/common.c over whole buffers.
use osm_firmware_v.Base.{
  ℕ, ◌/◌, ◌%◌, ◌^◌, ◌<◌, ◌≡◌, ◌≢◌, refl, ap, sym, ◌∙◌, List, [], ◌∷◌, ◌++◌, arith,
}
use osm_firmware_v.Crc.{feed, crc_from, modbus_crc}
use osm_firmware_v.Crc.Step.{
  feed-lt, feed_injective_state, feed_injective_byte, feed-low, feed_self,
}

-- Every byte of a buffer is one.
abbrev pub AreBytes : List ℕ → Type 0
AreBytes [] = Unit
AreBytes (b ∷ bs) = (b < 2 ^ 8) × AreBytes bs

crc_from-append : (c : ℕ) (xs ys : List ℕ) → crc_from c (xs ++ ys) ≡ crc_from (crc_from c xs) ys
unfolding crc_from
crc_from-append c [] ys = refl
crc_from-append c (x ∷ xs) ys = crc_from-append (feed c x) xs ys

pub crc_from-lt : (c : ℕ) (bs : List ℕ) → c < 2 ^ 16 → AreBytes bs → crc_from c bs < 2 ^ 16
unfolding crc_from
crc_from-lt c [] h _ = h
crc_from-lt c (b ∷ bs) h (hb, hbs) = crc_from-lt (feed c b) bs (feed-lt c b h hb) hbs

crc_from_injective :
    (c d : ℕ) (bs : List ℕ)
    → c < 2 ^ 16
    → d < 2 ^ 16
    → AreBytes bs
    → crc_from c bs ≡ crc_from d bs
    → c ≡ d
unfolding crc_from
crc_from_injective c d [] hc hd _ e = e
crc_from_injective c d (b ∷ bs) hc hd (hb, hbs) e =
    feed_injective_state c d b hc hd hb
      (crc_from_injective (feed c b) (feed d b) bs (feed-lt c b hc hb) (feed-lt d b hd hb) hbs e)

low_byte : (c : ℕ) → crc_from c (c % 256 ∷ c / 256 ∷ []) ≡ 0
unfolding crc_from
low_byte c = ap (λ x. feed x (c / 256)) (feed-low c) ∙ feed_self (c / 256)

-- The checksum of a buffer followed by its own checksum, the low byte first, is 0.
pub modbus_crc-residue :
    (bs : List ℕ) → modbus_crc (bs ++ (modbus_crc bs % 256 ∷ modbus_crc bs / 256 ∷ [])) ≡ 0
unfolding modbus_crc
modbus_crc-residue bs =
    crc_from-append 0xFFFF bs (crc_from 0xFFFF bs % 256 ∷ crc_from 0xFFFF bs / 256 ∷ [])
    ∙ low_byte (crc_from 0xFFFF bs)

-- Two buffers of bytes that differ in exactly one byte have different checksums.
pub modbus_crc-one_byte :
    (xs ys : List ℕ) (a b : ℕ)
    → AreBytes xs
    → AreBytes ys
    → a < 2 ^ 8
    → b < 2 ^ 8
    → a ≢ b
    → modbus_crc (xs ++ (a ∷ ys)) ≢ modbus_crc (xs ++ (b ∷ ys))
unfolding modbus_crc crc_from
modbus_crc-one_byte xs ys a b hx hy ha hb ne e =
    let small : crc_from 0xFFFF xs < 2 ^ 16 = crc_from-lt 0xFFFF xs (omega arith) hx in
    ne (
      feed_injective_byte (crc_from 0xFFFF xs) a b small ha hb (
        crc_from_injective (feed (crc_from 0xFFFF xs) a) (feed (crc_from 0xFFFF xs) b) ys
          (feed-lt (crc_from 0xFFFF xs) a small ha) (feed-lt (crc_from 0xFFFF xs) b small hb) hy
          (sym (crc_from-append 0xFFFF xs (a ∷ ys)) ∙ e ∙ crc_from-append 0xFFFF xs (b ∷ ys))))
