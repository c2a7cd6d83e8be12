-- ===== src/Measurements/Transmission.antt =====
-- core/measurements.c: all the fragments of one transmission.
use osm_firmware_v.Base.{
  ℕ, zero, suc, ◌+◌, ◌<◌, ◌≡◌, ◌≢◌, ◌⊎◌, inl, inr, refl, ap, ap₂, subst, sym, ◌∙◌, arith, Bool,
  true, false, List, [], ◌∷◌, ◌++◌, append_assoc, append-nil, Bool-cases, ◌==◌, ==_iff, ne→==,
  length, length-append, length_zero, Option, some,
}
use osm_firmware_v.Measurements.Send.{
  Entry, Queued, Sender, queue_from, after_queue, with_payload, go_on, transmit,
}
use osm_firmware_v.Measurements.Fragments.{
  waiting, all_passed, all_bytes, all_held, IsPayload, Passed, Stopped, queue_from-Passes,
}
use osm_firmware_v.Measurements.Resume.{
  waiting-append, all_bytes-append, all_passed-append, length-all_passed, start_lem, At,
  send_fragment-At, after_queue-entries, after_queue-start, after_queue-pending,
}

module _ {P : Type 0} (append : Entry → P → Bool × P) (bytes : Entry → List ℕ) (held : P → List ℕ)
    (Good : P → Type 0) (law : IsPayload append bytes held Good) (count : ℕ) (fresh : P) where
  -- The last fragment.
  pub last_fragment :
      (s : Sender) (pre todo front : List Entry) (q : Queued P)
      → At append s pre todo
      → Passed append bytes held Good law count todo (length pre) fresh q front []
      → (s.pending_send ≡ false) ⊎ (waiting count todo ≢ [])
      → (after_queue append s q).pending_send ≡ false
  last_fragment s pre todo front q at passed_all live =
      let whole : todo ≡ front = passed_all.split ∙ append-nil front in
      let at_end : (q.stop == length s.entries) ≡ true = (==_iff q.stop (length s.entries)).1 (
        omega (
          arith,
          passed_all.stop,
          ap length at.entries,
          length-append pre todo,
          ap length whole,
        )) in
      after_queue-pending append count fresh s q ∙ elim (Bool-cases (q.num_qd == 0)) [
        | inr some_sent ↦ rw (some_sent, at_end) refl
        | inl none_sent ↦ elim live [
          | inl not_pending ↦ rw (none_sent) not_pending
          | inr left ↦ absurd (
              left (
                length_zero (waiting count todo) (
                  omega (
                    arith,
                    passed_all.num,
                    (==_iff q.num_qd 0).0 none_sent,
                    ap (λ es. length (waiting count es)) whole,
                  ))))
        ]
      ]

  -- Each of these measurements alone fits in a fresh payload.
  unfoldable pub AllFit : List Entry → Type 0
  AllFit [] = Unit
  AllFit (e ∷ es) = ((append e fresh).0 ≡ true) × AllFit es

  pub AllFit-append : (xs ys : List Entry) → AllFit (xs ++ ys) → AllFit ys
  unfolding AllFit
  AllFit-append [] ys fit = fit
  AllFit-append (x ∷ xs) ys (_, fit) = AllFit-append xs ys fit

  module _ (empty : held fresh ≡ []) (good : Good fresh) where
    -- A fragment that is not the last holds something.
    pub some_queued :
        (front back : List Entry) (e : Entry)
        → AllFit (waiting count (e ∷ back))
        → Stopped append bytes held Good law count fresh front (e ∷ back)
        → waiting count front ≢ []
    unfolding Stopped AllFit
    some_queued front back e fit (p, inr ne, full, next) = ne
    some_queued front back e fit (p, inl same, full, next) =
        let (fits, _) = subst AllFit next fit in
        let refused : (append e fresh).0 ≡ false = subst (λ x. (append e x).0 ≡ false) same full in
        absurd (ground (arith, fits, refused))

    pub stopped_waits :
        (front back : List Entry) (e : Entry)
        → Stopped append bytes held Good law count fresh front (e ∷ back)
        → waiting count (e ∷ back) ≢ []
    unfolding Stopped
    stopped_waits front back e (p, moved, full, next) z =
        absurd (omega (arith, ap length (sym next ∙ z)))

    pub waiting-length : (front : List Entry) → waiting count front ≢ [] → 0 < length front
    unfolding waiting
    waiting-length [] ne = absurd (ne refl)
    waiting-length (x ∷ xs) ne = omega arith

    pub middle_fragment :
        (s : Sender) (pre todo front back : List Entry) (e : Entry) (q : Queued P)
        → At append s pre todo
        → AllFit (waiting count (e ∷ back))
        → Passed append bytes held Good law count todo (length pre) fresh q front (e ∷ back)
        → ((after_queue append s q).pending_send ≡ true)
          × At append (after_queue append s q) (pre ++ all_passed count front) (e ∷ back)
    middle_fragment s pre todo front back e q at fit some_passed =
        let len : length todo ≡ length front + suc (length back) =
          ap length some_passed.split ∙ length-append front (e ∷ back) in
        let some_sent : (q.num_qd == 0) ≡ false = ne→== q.num_qd 0 (λ none_sent.
          some_queued front back e fit some_passed.next
            (length_zero (waiting count front) (omega (arith, some_passed.num, none_sent)))) in
        let not_end : (q.stop == length s.entries) ≡ false = ne→== q.stop (length s.entries) (λ end.
          absurd (
            omega
              (arith, end, len, some_passed.stop, ap length at.entries, length-append pre todo))) in
        let after : (after_queue append s q).entries
            ≡ (pre ++ all_passed count front) ++ (e ∷ back) =
          after_queue-entries append count fresh s pre todo q at
          ∙ ap (λ es. pre ++ es) some_passed.entries
          ∙ sym (append_assoc pre (all_passed count front) (e ∷ back)) in
        let pre_length : length (pre ++ all_passed count front) ≡ length pre + length front =
          omega
            (arith, length-append pre (all_passed count front), length-all_passed count front) in
        (
          after_queue-pending append count fresh s q ∙ rw (some_sent, not_end) refl,
          record {
            entries = after;
            start =
                after_queue-start append count fresh s q (λ end. absurd (
                  omega (
                    arith,
                    end,
                    some_passed.stop,
                    pre_length,
                    ap length after,
                    length-append (pre ++ all_passed count front) (e ∷ back),
                  )))
                ∙ some_passed.stop
                ∙ sym pre_length;
          },
        )

    -- A transmission from `todo` on.
    abbrev pub Transmitted : List Entry → List Entry → Option (List P × Sender) → Type 0
    Transmitted pre todo result =
        (payloads : List P) × (s : Sender) × (result ≡ some (payloads, s))
        × (all_held held payloads ≡ all_bytes bytes (waiting count todo))
        × (s.entries ≡ pre ++ all_passed count todo)
        × (s.pending_send ≡ false)

    pub transmit-suc :
        (k : ℕ) (pre todo : List Entry) (s : Sender)
        → At append s pre todo
        → transmit append count fresh (suc k) s
          ≡ go_on append
              (
                queue_from append count todo (length pre) fresh,
                after_queue append s (queue_from append count todo (length pre) fresh),
              )
              (transmit append count fresh k
                (after_queue append s (queue_from append count todo (length pre) fresh)))
    unfolding transmit
    transmit-suc k pre todo s at =
        ap (λ r. go_on append r (transmit append count fresh k r.1))
          (send_fragment-At append count fresh s pre todo at)

    pub go_on-last :
        (q : Queued P) (s : Sender) (more : Option (List P × Sender))
        → s.pending_send ≡ false
        → go_on append (q, s) more ≡ some (q.payload ∷ [], s)
    unfolding go_on
    go_on-last q s more e =
        ap
          (λ b. elim b [
            | false ↦ some (q.payload ∷ [], s)
            | true ↦ with_payload append q.payload more
          ])
          e

    pub go_on-more :
        (q : Queued P) (s : Sender) (more : Option (List P × Sender))
        → s.pending_send ≡ true
        → go_on append (q, s) more ≡ with_payload append q.payload more
    unfolding go_on
    go_on-more q s more e =
        ap
          (λ b. elim b [
            | false ↦ some (q.payload ∷ [], s)
            | true ↦ with_payload append q.payload more
          ])
          e

    -- With `k` rounds any rest that is shorter is transmitted.
    abbrev pub Rounds : ℕ → Type 0
    Rounds k =
        (pre todo : List Entry) (s : Sender)
        → At append s pre todo
        → AllFit (waiting count todo)
        → length todo < k
        → (s.pending_send ≡ false) ⊎ (waiting count todo ≢ [])
        → Transmitted pre todo (transmit append count fresh k s)

    abbrev pub first_queue : List Entry → List Entry → Queued P
    first_queue pre todo = queue_from append count todo (length pre) fresh

    pub transmit-Passed :
        (k : ℕ)
        → Rounds k
        → (pre todo front back : List Entry) (s : Sender) → At append s pre todo
        → AllFit (waiting count todo)
        → length todo < suc k
        → (s.pending_send ≡ false) ⊎ (waiting count todo ≢ [])
        → Passed append bytes held Good law count todo
            (length pre)
            fresh
            (first_queue pre todo)
            front
            back
        → Transmitted pre todo (transmit append count fresh (suc k) s)
    transmit-Passed k again pre todo front [] s at fit i live passed_all =
        let q : Queued P = first_queue pre todo in
        let whole : todo ≡ front = passed_all.split ∙ append-nil front in
        let not_pending : (after_queue append s q).pending_send ≡ false =
          last_fragment s pre todo front q at passed_all live in
        (
          q.payload ∷ [],
          after_queue append s q,
          transmit-suc k pre todo s at ∙ go_on-last q (after_queue append s q) _ not_pending,
          append-nil (held q.payload)
              ∙ passed_all.payload
              ∙ ap₂ (λ xs es. xs ++ all_bytes bytes (waiting count es)) empty (sym whole),
          after_queue-entries append count fresh s pre todo q at
              ∙ ap (λ es. pre ++ es)
                  (passed_all.entries
                    ∙ append-nil (all_passed count front)
                    ∙ ap (all_passed count) (sym whole)),
          not_pending,
        )
    transmit-Passed k again pre todo front (e ∷ back) s at fit i live some_passed =
        let q : Queued P = first_queue pre todo in
        let s' : Sender = after_queue append s q in
        let apart : waiting count todo ≡ waiting count front ++ waiting count (e ∷ back) =
          ap (waiting count) some_passed.split ∙ waiting-append count front (e ∷ back) in
        let fit' : AllFit (waiting count (e ∷ back)) =
          AllFit-append (waiting count front) (waiting count (e ∷ back)) (subst AllFit apart fit) in
        let (pending, at') = middle_fragment s pre todo front back e q at fit' some_passed in
        let (payloads, s'', done, all, entries, finished) =
          again (pre ++ all_passed count front) (e ∷ back) s' at' fit'
            (omega (
              arith,
              i,
              ap length some_passed.split,
              length-append front (e ∷ back),
              waiting-length front (some_queued front back e fit' some_passed.next),
            ))
            (inr (stopped_waits front back e some_passed.next)) in
        (
          q.payload ∷ payloads,
          s'',
          transmit-suc k pre todo s at
              ∙ go_on-more q s' _ pending
              ∙ ap (with_payload append q.payload) done,
          ap₂ (λ xs ys. xs ++ ys)
                (some_passed.payload ∙ ap (λ xs. xs ++ all_bytes bytes (waiting count front)) empty)
                all
              ∙ sym (all_bytes-append bytes (waiting count front) (waiting count (e ∷ back)))
              ∙ ap (all_bytes bytes) (sym apart),
          entries
              ∙ append_assoc pre (all_passed count front) (all_passed count (e ∷ back))
              ∙ ap (λ es. pre ++ es)
                  (sym (all_passed-append count front (e ∷ back))
                    ∙ ap (all_passed count) (sym some_passed.split)),
          finished,
        )

    pub transmit_from : (k : ℕ) → Rounds k
    transmit_from zero pre todo s at fit i live = absurd (omega (arith, i))
    transmit_from (suc k) pre todo s at fit i live =
        let (front, back, passes) =
          queue_from-Passes append bytes held Good law count todo (length pre) fresh good in
        transmit-Passed k (transmit_from k) pre todo front back s at fit i live passes

    -- All the fragments from the start of a transmission.
    pub transmit-waiting :
        (s : Sender) (k : ℕ)
        → (s.chunk_start_pos ≡ 0) ⊎ (s.chunk_start_pos ≡ length s.entries)
        → s.pending_send ≡ false
        → AllFit (waiting count s.entries)
        → length s.entries < k
        → (payloads : List P) × (s' : Sender) × (transmit append count fresh k s
            ≡ some (payloads, s'))
          × (all_held held payloads ≡ all_bytes bytes (waiting count s.entries))
          × (s'.entries ≡ all_passed count s.entries)
          × (s'.pending_send ≡ false)
    transmit-waiting s k start not_pending fit enough =
        transmit_from k [] s.entries s (record { entries = refl; start = start_lem append s start })
          fit enough (inl not_pending)
