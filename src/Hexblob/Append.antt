-- ===== src/Hexblob/Append.antt =====
-- protocols/hexblob.c: appending a list of bytes to a context, with or without room for all.
use osm_firmware_v.Base.{
  ℕ, suc, ◌+◌, ◌%◌, ◌≤◌, ◌<◌, ◌≡◌, refl, ap, sym, ◌∙◌, inl, inr, ◌⊎◌, Bool, true, false, ◌&&◌, List,
  [], ◌∷◌, ◌++◌, append_assoc, append-nil, some, arith, ltb, leb, if◌then◌else◌, length,
  length-append, length-set, set, take, take-set_at, take-set_past, take_shorter, Bool-cases,
  ltb→lt, ltb→le,
}
use osm_firmware_v.Hexblob.{Ctx, Appender, and_then, and_also, append_i8}

-- A list of bytes, one after the other, up to the first that does not fit.
unfoldable pub append_each : List ℕ → Appender
append_each [] c = (true, c)
append_each (v ∷ vs) c =
    let (done, c') = append_i8 v c in
    let rest = append_each vs c' in if done then rest else (false, c')

pub append_each-append :
    (xs ys : List ℕ) (c : Ctx)
    → and_then (append_each xs) (append_each ys) c ≡ append_each (xs ++ ys) c
unfolding append_each
append_each-append [] ys c = refl
append_each-append (x ∷ xs) ys c = elim (Bool-cases (append_i8 x c).0) [
  | inl e ↦ rw e (append_each-append xs ys (append_i8 x c).1)
  | inr e ↦ rw e refl
]

pub append_each_one : (v : ℕ) (c : Ctx) → append_each (v ∷ []) c ≡ append_i8 v c
unfolding append_each
append_each_one v c = elim (Bool-cases (append_i8 v c).0) [ inl e ↦ rw e refl | inr e ↦ rw e refl ]

-- A context with its array in place.
pub record Ready (b : List ℕ) (c : Ctx) : Type 0 where
  pub array : c.buf ≡ some b
  pub fits : c.buflen ≤ length b
  pub within : c.pos ≤ c.buflen

-- The bytes as the array holds them.
abbrev pub as_bytes : List ℕ → List ℕ
as_bytes [] = []
as_bytes (v ∷ vs) = v % 256 ∷ as_bytes vs

-- With room for all, the array's first `pos` bytes grow by exactly these; else the context ends
-- full. Either way what stood before `pos` stands, and only `buf` and `pos` change.
abbrev pub Appended : List ℕ → Ctx → List ℕ → Bool × Ctx → Type 0
Appended b c vs (done, c') =
    (b' : List ℕ) × Ready b' c'
    × (c'.buflen ≡ c.buflen)
    × (length b' ≡ length b)
    × (done ≡ leb (c.pos + length vs) c.buflen)
    × (c.pos ≤ c'.pos)
    × (take c.pos b' ≡ take c.pos b)
    × ((done ≡ false)
        ⊎ ((c'.pos ≡ c.pos + length vs) × (take c'.pos b' ≡ take c.pos b ++ as_bytes vs)))

pub append_i8_room :
    (b : List ℕ) (c : Ctx) (v : ℕ)
    → c.buf ≡ some b
    → c.pos < c.buflen
    → append_i8 v c ≡ (true, record c { buf = some (set b c.pos (v % 256)); pos = c.pos + 1 })
unfolding append_i8
append_i8_room b c v e h = ground arith

append_i8_full :
    (b : List ℕ) (c : Ctx) (v : ℕ) → c.buf ≡ some b → c.buflen ≤ c.pos → append_i8 v c ≡ (false, c)
unfolding append_i8
append_i8_full b c v e h = ground arith

-- One byte more before the rest.
Appended-more :
    (b : List ℕ) (c : Ctx) (v : ℕ) (vs : List ℕ) (res : Bool × Ctx)
    → Ready b c
    → c.pos < c.buflen
    → Appended
        (set b c.pos (v % 256))
        (record c { buf = some (set b c.pos (v % 256)); pos = c.pos + 1 })
        vs
        res
    → Appended b c (v ∷ vs) res
Appended-more b c v vs (done, c') r h (b', ready, len, same, all, on, kept, grown) =
    let one : c.pos + 1 ≡ suc c.pos = omega arith in
    (
      b',
      ready,
      len,
      same ∙ length-set b c.pos (v % 256),
      all ∙ ap (λ n. leb n c.buflen) (omega arith),
      omega arith,
      take_shorter c.pos (c.pos + 1) b' (set b c.pos (v % 256)) (omega arith) kept
          ∙ take-set_past c.pos c.pos b (v % 256) (omega arith),
      elim grown [
        | inl full ↦ inl full
        | inr (at, bytes) ↦ inr (
          omega (arith, at),
          bytes
              ∙ ap (λ n. take n (set b c.pos (v % 256)) ++ as_bytes vs) one
              ∙ ap (λ xs. xs ++ as_bytes vs) (take-set_at c.pos b (v % 256) (omega arith))
              ∙ append_assoc (take c.pos b) (v % 256 ∷ []) (as_bytes vs),
        )
      ],
    )

pub append_each-Appended :
    (vs : List ℕ) (b : List ℕ) (c : Ctx) → Ready b c → Appended b c vs (append_each vs c)
unfolding append_each
append_each-Appended [] b c r =
    let e : c.pos + 0 ≡ c.pos = omega arith in
    (
      b,
      r,
      refl,
      refl,
      ground arith,
      omega arith,
      refl,
      inr (sym e, sym (append-nil (take c.pos b))),
    )
append_each-Appended (v ∷ vs) b c r = elim (Bool-cases (ltb c.pos c.buflen)) [
  | inl e ↦ rw (append_i8_room b c v r.array (ltb→lt _ _ e)) (
      Appended-more b c v vs (append_each vs _) r (ltb→lt _ _ e) (
        append_each-Appended vs (set b c.pos (v % 256)) _ (record {
          array = refl;
          fits = omega (arith, length-set b c.pos (v % 256));
          within = omega (arith, ltb→lt _ _ e);
        })))
  | inr e ↦
      rw (append_i8_full b c v r.array (ltb→le _ _ e))
        (b, r, refl, refl, ground arith, omega arith, refl, inl refl)
]

pub as_bytes-append : (xs ys : List ℕ) → as_bytes (xs ++ ys) ≡ as_bytes xs ++ as_bytes ys
as_bytes-append [] ys = refl
as_bytes-append (x ∷ xs) ys = ap (λ zs. x % 256 ∷ zs) (as_bytes-append xs ys)

also_done :
    (d d' : Bool) (x y z p p' n n' : ℕ)
    → n' ≡ n
    → z ≡ x + y
    → p' ≤ n'
    → d ≡ leb (p + x) n
    → d' ≡ leb (p' + y) n'
    → (d ≡ false) ⊎ (p' ≡ p + x)
    → (d && d') ≡ leb (p + z) n
also_done d d' x y z p p' n n' same sum within e e' (inl f) = rw f (ground arith)
also_done d d' x y z p p' n n' same sum within e e' (inr at) = rw (e, e') (ground arith)

both_grown :
    (d d' : Bool) (p p1 p2 : ℕ) (xs ys t0 t1 t2 : List ℕ)
    → (d ≡ false) ⊎ ((p1 ≡ p + length xs) × (t1 ≡ t0 ++ as_bytes xs))
    → (d' ≡ false) ⊎ ((p2 ≡ p1 + length ys) × (t2 ≡ t1 ++ as_bytes ys))
    → ((d && d') ≡ false) ⊎ ((p2 ≡ p + length (xs ++ ys)) × (t2 ≡ t0 ++ as_bytes (xs ++ ys)))
both_grown d d' p p1 p2 xs ys t0 t1 t2 (inl f) g' = inl (rw f refl)
both_grown d d' p p1 p2 xs ys t0 t1 t2 (inr g) (inl f') = inl (ground arith)
both_grown d d' p p1 p2 xs ys t0 t1 t2 (inr (at, bytes)) (inr (at', bytes')) = inr (
  omega (arith, at, at', length-append xs ys),
  bytes'
      ∙ ap (λ zs. zs ++ as_bytes ys) bytes
      ∙ append_assoc t0 (as_bytes xs) (as_bytes ys)
      ∙ ap (λ zs. t0 ++ zs) (sym (as_bytes-append xs ys)),
)

-- What `r |= !a; r |= !b` does: a first part that did not fit spoils the result, whatever the
-- second does.
pub also-Appended :
    (m k : Appender) (xs ys b : List ℕ) (c : Ctx)
    → Appended b c xs (m c)
    → ((b' : List ℕ) (c' : Ctx) → Ready b' c' → Appended b' c' ys (k c'))
    → Appended b c (xs ++ ys) (and_also m k c)
also-Appended m k xs ys b c (b', ready, len, same, all, on, kept, grown) second =
    let (b'', ready', len', same', all', on', kept', grown') = second b' (m c).1 ready in
    (
      b'',
      ready',
      len' ∙ len,
      same' ∙ same,
      also_done (m c).0 (k (m c).1).0 (length xs) (length ys) (length (xs ++ ys)) c.pos (m c).1.pos
          c.buflen (m c).1.buflen len (length-append xs ys) ready.within all all'
          (elim grown [ inl f ↦ inl f | inr (at, bytes) ↦ inr at ]),
      omega arith,
      take_shorter c.pos (m c).1.pos b'' b' on kept' ∙ kept,
      both_grown (m c).0 (k (m c).1).0 c.pos (m c).1.pos (k (m c).1).1.pos xs ys (take c.pos b)
          (take (m c).1.pos b') (take (k (m c).1).1.pos b'') grown grown',
    )
