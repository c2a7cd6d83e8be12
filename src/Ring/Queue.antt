-- ===== src/Ring/Queue.antt =====
-- What a ring promises: a queue of at most `cap` bytes, oldest first.
use osm_firmware_v.Base.{
  ℕ, zero, suc, ltb, get_or, Option, none, some, ◌&&◌, ◌==◌, Bool, true, false, ◌||◌, List, [], ◌∷◌,
  ◌++◌, if◌then◌else◌, length, take, drop, min,
}
use mathlib.Core.Option

-- Line feed and carriage return end a line.
abbrev pub is_eol : ℕ → Bool
is_eol c = c == 10 || c == 13

-- A byte is refused exactly when the queue is full.
unfoldable pub add : ℕ → List ℕ → ℕ → Bool × List ℕ
add cap q c = if length q == cap then (false, q) else (true, q ++ (c ∷ []))

-- As many bytes as there are, `len` at most: their number, the bytes and the rest.
unfoldable pub read : List ℕ → ℕ → ℕ × List ℕ × List ℕ
read q len = (min len (length q), take len q, drop len q)

-- A line among the first `k` bytes: the bytes before the first terminator, and how many bytes go
-- with it, one more for a second terminator that follows within the `k`.
unfoldable pub find_line : ℕ → List ℕ → Option (List ℕ × ℕ)
find_line zero q = none
find_line (suc k) [] = none
find_line (suc k) (c ∷ q) =
    if is_eol c
    then some ([], if ltb 0 k && is_eol (get_or q 0 0) then 2 else 1)
    else Option.map (λ (line, used). (c ∷ line, suc used)) (find_line k q)
