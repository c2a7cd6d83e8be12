-- ===== src/Measurements/Resume.antt =====
-- core/measurements.c: the state of a transmission between two fragments.
use osm_firmware_v.Base.{
  ℕ, suc, ◌≡◌, ◌≢◌, ◌⊎◌, inl, inr, refl, ap, ap₂, sym, append_assoc, ◌∙◌, arith, Bool, false, not,
  ◌&&◌, List, [], ◌∷◌, ◌++◌, Bool-cases, ◌==◌, ne→==, if◌then◌else◌, length, take, drop,
  take-append,
}
use osm_firmware_v.Measurements.Send.{
  Entry, is_due, Queued, Sender, queue_from, start_of, after_queue, send_fragment,
}
use osm_firmware_v.Measurements.Fragments.{waiting, passed, all_passed, all_bytes}

pub waiting-append :
    (count : ℕ) (xs ys : List Entry)
    → waiting count (xs ++ ys) ≡ waiting count xs ++ waiting count ys
unfolding waiting
waiting-append count [] ys = refl
waiting-append count (x ∷ xs) ys =
    elim (Bool-cases (is_due count x && not (x.samples.num_samples == 0))) [
      | inl out ↦ rw (out) (ap (λ zs. x ∷ zs) (waiting-append count xs ys))
      | inr stays ↦ rw (stays) (waiting-append count xs ys)
    ]

pub all_bytes-append :
    (bytes : Entry → List ℕ) (xs ys : List Entry)
    → all_bytes bytes (xs ++ ys) ≡ all_bytes bytes xs ++ all_bytes bytes ys
all_bytes-append bytes [] ys = refl
all_bytes-append bytes (x ∷ xs) ys =
    ap (λ bs. bytes x ++ bs) (all_bytes-append bytes xs ys)
    ∙ sym (append_assoc (bytes x) (all_bytes bytes xs) (all_bytes bytes ys))

pub all_passed-append :
    (count : ℕ) (xs ys : List Entry)
    → all_passed count (xs ++ ys) ≡ all_passed count xs ++ all_passed count ys
unfolding all_passed
all_passed-append count [] ys = refl
all_passed-append count (x ∷ xs) ys = ap (λ zs. passed count x ∷ zs) (all_passed-append count xs ys)

pub length-all_passed : (count : ℕ) (xs : List Entry) → length (all_passed count xs) ≡ length xs
unfolding all_passed
length-all_passed count [] = refl
length-all_passed count (x ∷ xs) = ap suc (length-all_passed count xs)

drop-append : (xs ys : List Entry) → drop (length xs) (xs ++ ys) ≡ ys
drop-append [] ys = refl
drop-append (x ∷ xs) ys = drop-append xs ys

pub start_lem :
    {P : Type 0} (append : Entry → P → Bool × P) (s : Sender)
    → (s.chunk_start_pos ≡ 0) ⊎ (s.chunk_start_pos ≡ length s.entries)
    → start_of append s ≡ 0
start_lem append s (inl e) = ground (arith, e)
start_lem append s (inr e) = ground (arith, e)

-- The sender stands before `todo`.
pub record At {P : Type 0} (append : Entry → P → Bool × P) (s : Sender) (pre todo : List Entry)
    : Type 0 where
  pub entries : s.entries ≡ pre ++ todo
  pub start : start_of append s ≡ length pre

module _ {P : Type 0} (append : Entry → P → Bool × P) (count : ℕ) (fresh : P) where
  -- The loop of a fragment, and the state after it.
  pub send_fragment-At :
      (s : Sender) (pre todo : List Entry)
      → At append s pre todo
      → send_fragment append count fresh s ≡ (
        queue_from append count todo (length pre) fresh,
        after_queue append s (queue_from append count todo (length pre) fresh),
      )
  unfolding send_fragment
  send_fragment-At s pre todo at =
      let rest : drop (start_of append s) s.entries ≡ todo =
        ap₂ drop at.start at.entries ∙ drop-append pre todo in
      ap₂
        (λ es i. (
          queue_from append count es i fresh,
          after_queue append s (queue_from append count es i fresh),
        ))
        rest at.start

  pub after_queue-entries :
      (s : Sender) (pre todo : List Entry) (q : Queued P)
      → At append s pre todo
      → (after_queue append s q).entries ≡ pre ++ q.entries
  unfolding after_queue
  after_queue-entries s pre todo q at =
      ap (λ es. es ++ q.entries) (ap₂ take at.start at.entries ∙ take-append pre todo)

  pub after_queue-start :
      (s : Sender) (q : Queued P)
      → q.stop ≢ length (after_queue append s q).entries
      → start_of append (after_queue append s q) ≡ q.stop
  unfolding after_queue
  after_queue-start s q ne =
      let e : (q.stop == length (take (start_of append s) s.entries ++ q.entries)) ≡ false =
        ne→== _ _ ne in
      rw (e) refl

  pub after_queue-pending :
      (s : Sender) (q : Queued P)
      → (after_queue append s q).pending_send
        ≡ (if q.num_qd == 0 then s.pending_send else not (q.stop == length s.entries))
  unfolding after_queue
  after_queue-pending s q = refl
