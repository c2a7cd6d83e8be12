-- ===== src/Common/Strings.antt =====
-- osm_msg_is, osm_is_str and osm_str_is_valid_ascii.
use osm_firmware_v.Base.{
  ℕ, zero, suc, ◌+◌, ◌≤◌, ◌≡◌, ◌↔◌, refl, ap, ap₂, subst, sym, ◌∙◌, arith, ltb, ◌==◌, not, ◌&&◌,
  Bool, true, false, List, [], ◌∷◌, get_or, take-drop, take, drop, length,
}
use osm_firmware_v.Base.Strings.{strlen, strnlen, same_chars, rest_of, strnlen-le}
use osm_firmware_v.Common.{msg_is, is_str, ascii_from, str_is_valid_ascii}

head_in : (n x : ℕ) (s : List ℕ) → suc n ≤ strlen (x ∷ s) → ((x == 0) ≡ false) × (n ≤ strlen s)
unfolding strlen
head_in n x s h = ground arith

-- Within the length of `s`, the same characters are the same prefix.
same_chars-prefix :
    (n : ℕ) (s t : List ℕ) → n ≤ strlen s → (same_chars s t n ≡ true) ↔ (take n s ≡ take n t)
unfolding same_chars strlen
same_chars-prefix zero s t h = (λ _. refl, λ _. refl)
same_chars-prefix (suc n) [] t h = absurd (omega arith)
same_chars-prefix (suc n) (x ∷ s) [] h =
    let (some_char, more) = head_in n x s h in
    (λ e. absurd (ground arith), λ e. absurd (omega (arith, ap length e)))
same_chars-prefix (suc n) (x ∷ s) (y ∷ t) h =
    let (some_char, more) = head_in n x s h in
    let (there, back) = same_chars-prefix n s t more in
    (
      λ e. ap₂ (λ c cs. c ∷ cs) (ground arith) (there (ground arith)),
      λ e. ground (arith, ap (λ cs. get_or cs 0 0) e, back (ap rest_of e)),
    )

same_chars_comm : (n : ℕ) (s t : List ℕ) → same_chars s t n ≡ same_chars t s n
unfolding same_chars
same_chars_comm zero s t = refl
same_chars_comm (suc n) s t = ground (arith, same_chars_comm n (rest_of s) (rest_of t))

abbrev pub is_ascii : List ℕ → Bool
is_ascii [] = true
is_ascii (c ∷ s) = ltb c 128 && is_ascii s

ascii_from-is_ascii :
    (k i : ℕ) (s : List ℕ) → i + k ≤ length s → ascii_from s i k ≡ is_ascii (take k (drop i s))
unfolding ascii_from
ascii_from-is_ascii zero i s h = refl
ascii_from-is_ascii (suc k) i s h =
    rw (take-drop i s k 0 (omega arith))
      (ground (arith, ascii_from-is_ascii k (i + 1) s (omega arith)))

-- osm_is_str returns true exactly if cmplen is the length of the reference string and the first
-- cmplen characters are the same.
pub is_str_lem :
    (ref cmp : List ℕ) (cmplen : ℕ)
    → (is_str ref cmp cmplen ≡ true) ↔ ((cmplen ≡ strlen ref) × (take cmplen ref ≡ take cmplen cmp))
unfolding is_str
is_str_lem ref cmp cmplen =
    let (there, back) = same_chars-prefix (strlen ref) ref cmp (omega arith) in
    (
      λ e.
          let same : cmplen ≡ strlen ref = ground arith in
          (same, subst (λ n. take n ref ≡ take n cmp) (sym same) (there (ground arith))),
      λ h.
          let all : same_chars ref cmp (strlen ref) ≡ true =
            back (subst (λ n. take n ref ≡ take n cmp) h.0 h.1) in
          let len : cmplen ≡ strlen ref = h.0 in ground arith,
    )

-- osm_msg_is returns true exactly if the message begins with the reference string.
pub msg_is_lem :
    (ref message : List ℕ)
    → (msg_is ref message ≡ true) ↔ (take (strlen ref) ref ≡ take (strlen ref) message)
unfolding msg_is
msg_is_lem ref message =
    let (there, back) = same_chars-prefix (strlen ref) ref message (omega arith) in
    (
      λ e. there (same_chars_comm (strlen ref) ref message ∙ e),
      λ e. same_chars_comm (strlen ref) message ref ∙ back e,
    )

-- osm_str_is_valid_ascii returns whether the string, cut at max_len, is ASCII throughout and, if
-- this is required, not empty.
pub str_is_valid_ascii_lem :
    (str : List ℕ) (max_len : ℕ) (required : Bool)
    → str_is_valid_ascii str max_len required
      ≡ (not (required && strnlen str max_len == 0) && is_ascii (take (strnlen str max_len) str))
unfolding str_is_valid_ascii
str_is_valid_ascii_lem str max_len required =
    ground (
      arith,
      ascii_from-is_ascii (strnlen str max_len) 0 str (omega (arith, strnlen-le str max_len)),
    )
