-- ===== src/Measurements/Fragments.antt =====
-- core/measurements.c: the fragments of one transmission. The payload is a parameter; `held` is
-- what it holds, in bytes, and `Good` an invariant of it.
use osm_firmware_v.Base.{
  ℕ, ◌+◌, ◌%◌, ◌≡◌, ◌≢◌, ◌⊎◌, inl, inr, refl, ap, ap₂, subst, sym, ◌∙◌, arith, Bool, true, false,
  not, ◌&&◌, List, [], ◌∷◌, ◌++◌, append_assoc, append-nil, Bool-cases, ◌==◌, if◌then◌else◌, length,
}
use osm_firmware_v.Base.Ints.{pos}
use osm_firmware_v.Measurements.{Value, value_64}
use osm_firmware_v.Measurements.Send.{Entry, is_due, unsampled, sent, Queued, behind, queue_from}

-- Every `interval` intervals it is a measurement's turn; never, if that is 0.
abbrev pub is_turn_of : ℕ → Entry → Bool
is_turn_of count e = not (e.def.interval == 0) && (count % e.def.interval == 0)

-- The measurements that are to go out.
unfoldable pub waiting : ℕ → List Entry → List Entry
waiting count [] = []
waiting count (e ∷ es) =
    let rest = waiting count es in
    if is_turn_of count e && not (e.samples.num_samples == 0) then e ∷ rest else rest

abbrev zero_stats : Value
zero_stats = value_64 (record { sum = pos 0; max = pos 0; min = pos 0 })

-- What the loop leaves of an entry that it passes: the counters, and with a sample all the data, are
-- cleared.
abbrev pub passed : ℕ → Entry → Entry
passed count e =
    if is_turn_of count e
    then (if e.samples.num_samples == 0
        then record e {
          samples = record e.samples { num_samples_init = 0; num_samples_collected = 0 };
        }
        else record e {
          has_sent = true;
          samples = record e.samples {
            value = zero_stats;
            num_samples = 0;
            num_samples_init = 0;
            num_samples_collected = 0;
          };
        })
    else e

unfoldable pub all_passed : ℕ → List Entry → List Entry
all_passed count [] = []
all_passed count (e ∷ es) = passed count e ∷ all_passed count es

abbrev pub all_bytes : (Entry → List ℕ) → List Entry → List ℕ
all_bytes bytes [] = []
all_bytes bytes (e ∷ es) = bytes e ++ all_bytes bytes es

-- What the payloads of a transmission hold together.
abbrev pub all_held : {P : Type 0} → (P → List ℕ) → List P → List ℕ
all_held held [] = []
all_held held (p ∷ ps) = held p ++ all_held held ps

-- A payload grows by the bytes of a measurement that it takes, and by nothing else.
pub record IsPayload {P : Type 0} (append : Entry → P → Bool × P) (bytes : Entry → List ℕ)
    (held : P → List ℕ) (Good : P → Type 0) : Type 0 where
  pub taken :
      (e : Entry) (p : P)
      → Good p
      → (e.samples.num_samples == 0) ≡ false
      → (append e p).0 ≡ true
      → held (append e p).1 ≡ held p ++ bytes e
  pub refused :
      (e : Entry) (p : P)
      → Good p
      → (e.samples.num_samples == 0) ≡ false
      → (append e p).0 ≡ false
      → held (append e p).1 ≡ held p
  pub good :
      (e : Entry) (p : P) → Good p → (e.samples.num_samples == 0) ≡ false → Good (append e p).1

module _ {P : Type 0} (append : Entry → P → Bool × P) (bytes : Entry → List ℕ) (held : P → List ℕ)
    (Good : P → Type 0) (law : IsPayload append bytes held Good) (count : ℕ) where
  -- The loop stops at the end, or before a measurement that is to go out and is refused: by the
  -- payload as it was, or behind another that went out.
  unfoldable pub Stopped : P → List Entry → List Entry → Type 0
  Stopped p front [] = Unit
  Stopped p front (e ∷ es) =
      (p' : P) × ((p' ≡ p) ⊎ (waiting count front ≢ []))
      × ((append e p').0 ≡ false)
      × (waiting count (e ∷ es) ≡ e ∷ waiting count es)

  -- The loop passes the entries `front` and stops before `back`.
  pub record Passed (es : List Entry) (i : ℕ) (p : P) (q : Queued P) (front back : List Entry)
      : Type 0 where
    pub split : es ≡ front ++ back
    pub entries : q.entries ≡ all_passed count front ++ back
    pub stop : q.stop ≡ i + length front
    pub num : q.num_qd ≡ length (waiting count front)
    pub next : Stopped p front back
    pub payload : held q.payload ≡ held p ++ all_bytes bytes (waiting count front)

  -- An entry that does not go out leaves the payload alone.
  abbrev pub Moved : P → P → Entry → List Entry → Type 0
  Moved p p' e front =
      ((p' ≡ p) × (waiting count (e ∷ front) ≡ waiting count front))
      ⊎ (waiting count (e ∷ front) ≢ [])

  pub later_Stopped :
      (p p' : P) (e : Entry) (front back : List Entry)
      → Moved p p' e front
      → Stopped p' front back
      → Stopped p (e ∷ front) back
  unfolding Stopped
  later_Stopped p p' e front [] moved stopped = tt
  later_Stopped p p' e front (x ∷ xs) (inr out) (p'', _, full, next) = (p'', inr out, full, next)
  later_Stopped p p' e front (x ∷ xs) (inl (same, w)) (p'', inl at, full, next) =
      (p'', inl (at ∙ same), full, next)
  later_Stopped p p' e front (x ∷ xs) (inl (same, w)) (p'', inr ne, full, next) =
      (p'', inr (λ z. ne (sym w ∙ z)), full, next)

  -- One entry passed in front of others.
  pub Passed-behind :
      (e e' : Entry) (n : ℕ) (es : List Entry) (i : ℕ) (p p' : P) (q : Queued P)
      (front back : List Entry)
      → e' ≡ passed count e
      → Moved p p' e front
      → (held p' ++ all_bytes bytes (waiting count front)
          ≡ held p ++ all_bytes bytes (waiting count (e ∷ front)))
      → n + length (waiting count front) ≡ length (waiting count (e ∷ front))
      → Passed es (i + 1) p' q front back
      → Passed (e ∷ es) i p (behind e' n q) (e ∷ front) back
  unfolding all_passed
  Passed-behind e e' n es i p p' q front back same moved kept one at = record {
    split = ap (λ xs. e ∷ xs) at.split;
    entries = ap₂ (λ x xs. x ∷ xs) same at.entries;
    stop = omega (arith, at.stop);
    num = omega (arith, at.num, one);
    next = later_Stopped p p' e front back moved at.next;
    payload = at.payload ∙ kept;
  }

  -- The four ways of the loop's body.
  pub queue_nil :
      (i : ℕ) (p : P)
      → queue_from append count [] i p ≡ record { stop = i; entries = []; payload = p; num_qd = 0 }
  unfolding queue_from
  queue_nil i p = refl

  pub queue_other :
      (e : Entry) (es : List Entry) (i : ℕ) (p : P)
      → is_due count e ≡ false
      → queue_from append count (e ∷ es) i p ≡ behind e 0 (queue_from append count es (i + 1) p)
  unfolding queue_from
  queue_other e es i p other = rw (queue_from, other) refl

  pub queue_empty :
      (e : Entry) (es : List Entry) (i : ℕ) (p : P)
      → is_due count e ≡ true
      → (e.samples.num_samples == 0) ≡ true
      → queue_from append count (e ∷ es) i p
        ≡ behind (unsampled e) 0 (queue_from append count es (i + 1) p)
  unfolding queue_from
  queue_empty e es i p due empty = rw (queue_from, due, empty) refl

  pub queue_taken :
      (e : Entry) (es : List Entry) (i : ℕ) (p : P)
      → is_due count e ≡ true
      → (e.samples.num_samples == 0) ≡ false
      → (append e p).0 ≡ true
      → queue_from append count (e ∷ es) i p
        ≡ behind (sent e) 1 (queue_from append count es (i + 1) (append e p).1)
  unfolding queue_from
  queue_taken e es i p due some_samples ok = rw (queue_from, due, some_samples, ok) refl

  pub queue_refused :
      (e : Entry) (es : List Entry) (i : ℕ) (p : P)
      → is_due count e ≡ true
      → (e.samples.num_samples == 0) ≡ false
      → (append e p).0 ≡ false
      → queue_from append count (e ∷ es) i p
        ≡ record { stop = i; entries = e ∷ es; payload = (append e p).1; num_qd = 0 }
  unfolding queue_from
  queue_refused e es i p due some_samples full = rw (queue_from, due, some_samples, full) refl

  abbrev pub Passes : List Entry → ℕ → P → Queued P → Type 0
  Passes es i p q = (front : List Entry) × (back : List Entry) × Passed es i p q front back

  pub queue_from-Passes :
      (es : List Entry) (i : ℕ) (p : P) → Good p → Passes es i p (queue_from append count es i p)
  unfolding waiting all_passed Stopped unsampled sent
  queue_from-Passes [] i p g = subst (Passes [] i p) (sym (queue_nil i p)) (
    [],
    [],
    record {
      split = refl;
      entries = refl;
      stop = omega arith;
      num = refl;
      next = tt;
      payload = sym (append-nil (held p));
    },
  )
  queue_from-Passes (e ∷ es) i p g = elim (Bool-cases (is_due count e)) [
    | inr other ↦
        let (front, back, at) = queue_from-Passes es (i + 1) p g in
        subst (Passes (e ∷ es) i p) (sym (queue_other e es i p other)) (
          e ∷ front,
          back,
          Passed-behind e e 0 es i p p (queue_from append count es (i + 1) p) front back
              (rw (other) refl) (inl (refl, rw (other) refl)) (rw (other) refl)
              (rw (other) (omega arith)) at,
        )
    | inl due ↦ elim (Bool-cases (e.samples.num_samples == 0)) [
      | inl empty ↦
          let (front, back, at) = queue_from-Passes es (i + 1) p g in
          subst (Passes (e ∷ es) i p) (sym (queue_empty e es i p due empty)) (
            e ∷ front,
            back,
            Passed-behind e (unsampled e) 0 es i p p (queue_from append count es (i + 1) p) front
                back (rw (due, empty) refl) (inl (refl, rw (due, empty) refl))
                (rw (due, empty) refl) (rw (due, empty) (omega arith)) at,
          )
      | inr some_samples ↦ elim (Bool-cases (append e p).0) [
        | inl ok ↦
            let (front, back, at) =
              queue_from-Passes es (i + 1) (append e p).1 (law.good e p g some_samples) in
            subst (Passes (e ∷ es) i p) (sym (queue_taken e es i p due some_samples ok)) (
              e ∷ front,
              back,
              Passed-behind e (sent e) 1 es i p (append e p).1
                  (queue_from append count es (i + 1) (append e p).1) front back
                  (rw (due, some_samples) refl)
                  (inr (rw (due, some_samples) (λ z. absurd (omega (arith, ap length z)))))
                  (rw (due, some_samples)
                    (ap (λ xs. xs ++ all_bytes bytes (waiting count front))
                        (law.taken e p g some_samples ok)
                      ∙ append_assoc (held p) (bytes e) (all_bytes bytes (waiting count front))))
                  (rw (due, some_samples) (omega arith)) at,
            )
        | inr full ↦
            subst (Passes (e ∷ es) i p) (sym (queue_refused e es i p due some_samples full)) (
              [],
              e ∷ es,
              record {
                split = refl;
                entries = refl;
                stop = omega arith;
                num = refl;
                next = (p, inl refl, full, rw (due, some_samples) refl);
                payload = law.refused e p g some_samples full ∙ sym (append-nil (held p));
              },
            )
      ]
    ]
  ]
