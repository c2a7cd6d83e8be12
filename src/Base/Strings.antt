-- ===== src/Base/Strings.antt =====
-- C strings, and the functions of the standard library on them that the code calls.
use Prim.Native.Nat.{ℕ, zero, suc, ◌≤◌}
use native.Mathlib.Omega.{arith}
use mathlib.Core.Bool.{Bool, true, ◌&&◌, ◌||◌}
use mathlib.Core.List.{List, [], ◌∷◌}
use osm_firmware_v.Base.Tests.{◌==◌, if◌then◌else◌}
use osm_firmware_v.Base.Lists.{get_or, length}

-- A C string is its characters; behind the end of the list stands the terminator.
unfoldable pub strlen : List ℕ → ℕ
strlen [] = 0
strlen (c ∷ s) = let rest = strlen s in if c == 0 then 0 else suc rest

abbrev pub rest_of : List ℕ → List ℕ
rest_of [] = []
rest_of (c ∷ s) = s

-- `strncmp(s, t, n) == 0`
unfoldable pub same_chars : List ℕ → List ℕ → ℕ → Bool
same_chars s t zero = true
same_chars s t (suc n) =
    let rest = same_chars (rest_of s) (rest_of t) n in
    (get_or s 0 0 == get_or t 0 0) && (get_or s 0 0 == 0 || rest)

-- `strnlen(s, max)`
unfoldable pub strnlen : List ℕ → ℕ → ℕ
strnlen s zero = 0
strnlen [] (suc max) = 0
strnlen (c ∷ s) (suc max) = let rest = strnlen s max in if c == 0 then 0 else suc rest

pub strnlen-le : (s : List ℕ) (n : ℕ) → strnlen s n ≤ length s
unfolding strnlen
strnlen-le s zero = omega arith
strnlen-le [] (suc n) = omega arith
strnlen-le (x ∷ s) (suc n) = ground (arith, strnlen-le s n)
