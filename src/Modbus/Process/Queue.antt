-- ===== src/Modbus/Process/Queue.antt =====
-- osm_modbus_start_read and the message queue.
use osm_firmware_v.Base.{
  ℕ, ◌≤◌, ◌<◌, ◌≡◌, ◌⊎◌, inl, inr, refl, ap, sym, ◌∙◌, Bool, true, false, not, ◌||◌, ◌&&◌, [], ◌∷◌,
  ◌++◌, ◌==◌, none, some, length, length-append, arith, Bool-cases, ltb, ==→ne, subst,
  if◌then◌else◌,
}
use osm_firmware_v.Common.{since_boot_delta}
use osm_firmware_v.Modbus.{type_known, Reg, reg_waiting}
use osm_firmware_v.Modbus.Send.{read_holding, read_input}
use osm_firmware_v.Modbus.Receive.{Master, slots, put_reg, resp_timeout_ms}
use osm_firmware_v.Modbus.Process.{make_room, enqueue, enqueue_if, start_read}
use osm_firmware_v.Modbus.Process.Enqueue.{request_frame, Entered, enqueue-Entered}

-- A register that can be read: its device is known, and so are its function and its type.
abbrev pub readable : Bool → Reg → Bool
readable has_dev reg =
    has_dev && (reg.func == read_holding || reg.func == read_input) && type_known reg.type

-- The queue is full, and a reply may still come that makes room.
abbrev pub too_fast : ℕ → Master → Bool
too_fast now m =
    length m.queue == slots
    && (m.link.want_rx && ltb (since_boot_delta now m.link.send_time) resp_timeout_ms)

-- A reply is waited for, and the queue is not about to be emptied.
abbrev pub deferred : Master → Bool
deferred m = m.link.want_rx && not (length m.queue == slots)

-- The read of `h` is started: the register is the last in the queue, alone if the queue was full,
-- and waits; the others stay. A reply is waited for, and the request goes out unless deferred.
abbrev pub Joined : ℕ → Master → Master → Type 0
Joined h m m' =
    (m'.queue ≡ (if length m.queue == slots then [] else m.queue) ++ (h ∷ []))
    × (length m'.queue ≤ slots)
    × ((i : ℕ) → m'.regs i ≡ put_reg m.regs h (record (m.regs h) { value_state = reg_waiting }) i)
    × (m'.link.want_rx ≡ true)
    × (m'.link.out ≡ m.link.out ++ (if deferred m then [] else request_frame m (m.regs h)))

-- Refused, and nothing changed, or started.
abbrev pub Started : ℕ → Bool → ℕ → Master → Bool × Master → Type 0
Started now has_dev h m (done, m') =
    (done ≡ (readable has_dev (m.regs h) && not (too_fast now m)))
    × (((done ≡ false) × (m' ≡ m)) ⊎ ((done ≡ true) × Joined h m m'))

can_read :
    (has_dev : Bool) (reg : Reg)
    → readable has_dev reg ≡ true
    → (reg.func ≡ read_holding) ⊎ (reg.func ≡ read_input)
can_read has_dev reg e = elim (Bool-cases (reg.func == read_holding)) [
  | inl a ↦ inl (ground (arith, a))
  | inr a ↦ elim (Bool-cases (reg.func == read_input)) [
    | inl b ↦ inr (ground (arith, b))
    | inr b ↦ absurd (ground (arith, a, b, e))
  ]
]

-- The registers in the queue are given up.
abbrev emptied : Master → Master
emptied m = record m {
  queue = [];
  last_good = 0;
  link = record m.link { send_time = 0; want_rx = false };
}

and_true : (b : Bool) → b ≡ (b && true)
and_true true = refl
and_true false = refl

and_false : (b : Bool) → false ≡ (b && false)
and_false true = refl
and_false false = refl

joins :
    (h : ℕ) (m : Master) (res : Bool × Master)
    → length m.queue < slots
    → Entered h m res
    → (res.0 ≡ true) × Joined h m res.1
joins h m (done, m') few (good, queue, regs, waits, out) =
    let room : (length m.queue == slots) ≡ false = ground arith in
    (
      good,
      (
        rw room queue,
        omega (arith, few, ap length queue, length-append m.queue (h ∷ [])),
        regs,
        waits,
        rw room (
            out
            ∙ ap (λ b. m.link.out ++ (if b then [] else request_frame m (m.regs h)))
                (and_true m.link.want_rx)),
      ),
    )

joins_emptied :
    (h : ℕ) (m : Master) (res : Bool × Master)
    → (length m.queue == slots) ≡ true
    → Entered h (emptied m) res
    → (res.0 ≡ true) × Joined h m res.1
joins_emptied h m (done, m') was_full (good, queue, regs, waits, out) = (
  good,
  (
    rw was_full queue,
    omega (arith, ap length queue),
    regs,
    waits,
    rw was_full (
        out
        ∙ ap (λ b. m.link.out ++ (if b then [] else request_frame m (m.regs h)))
            (and_false m.link.want_rx)),
  ),
)

started :
    (now : ℕ) (has_dev : Bool) (h : ℕ) (m : Master) (res : Bool × Master)
    → readable has_dev (m.regs h) ≡ true
    → too_fast now m ≡ false
    → (res.0 ≡ true) × Joined h m res.1
    → Started now has_dev h m res
started now has_dev h m (done, m') r slow (good, joined) = (rw (r, slow) good, inr (good, joined))

enqueue_if-Started :
    (echo : Bool) (now : ℕ) (has_dev : Bool) (h : ℕ) (m : Master)
    → readable has_dev (m.regs h) ≡ true
    → length m.link.tx ≡ 20
    → length m.queue ≤ slots
    → Started now has_dev h m (enqueue_if echo now h m (make_room now m))
unfolding enqueue_if make_room
enqueue_if-Started echo now has_dev h m r full few =
    let f = can_read has_dev (m.regs h) r in
    elim (Bool-cases (length m.queue == slots)) [
      | inr e ↦
          let room : length m.queue < slots = omega (arith, ==→ne (length m.queue) slots e) in
          let made : make_room now m ≡ some m = rw e refl in
          subst (λ o. Started now has_dev h m (enqueue_if echo now h m o)) (sym made)
            (started now has_dev h m (enqueue echo now h m) r (rw e refl)
              (joins h m (enqueue echo now h m) room (enqueue-Entered echo now h m f full room)))
      | inl e ↦
          elim (Bool-cases
            (m.link.want_rx && ltb (since_boot_delta now m.link.send_time) resp_timeout_ms)) [
              | inl w ↦
                  let made : make_room now m ≡ none = rw (e, w) refl in
                  subst (λ o. Started now has_dev h m (enqueue_if echo now h m o)) (sym made)
                    (rw (r, e, w) (refl, inl (refl, refl)))
              | inr w ↦
                  let made : make_room now m ≡ some (emptied m) = rw (e, w) refl in
                  subst (λ o. Started now has_dev h m (enqueue_if echo now h m o)) (sym made)
                    (started now has_dev h m (enqueue echo now h (emptied m)) r (rw (e, w) refl) (
                      joins_emptied h m (enqueue echo now h (emptied m)) e
                        (enqueue-Entered echo now h (emptied m) f full (omega arith))))
            ]
    ]

-- With at most 62 registers in the queue and a packet array of 20 bytes, osm_modbus_start_read
-- returns true exactly if the device is found, the function reads, the type is known, and the
-- queue is not full while a reply may still come in time. If false, nothing changed. If true, the
-- register is the last in the queue, which was emptied before if it was full, has at most 62, and
-- the register waits while the others are as they were; a reply is waited for, and the request of
-- the register went out, unless a reply was already waited for and the queue was not full.
pub start_read-Started :
    (echo : Bool) (now : ℕ) (has_dev : Bool) (h : ℕ) (m : Master)
    → length m.queue ≤ slots
    → length m.link.tx ≡ 20
    → Started now has_dev h m (start_read echo now has_dev h m)
unfolding start_read
start_read-Started echo now has_dev h m few full = elim (Bool-cases (readable has_dev (m.regs h))) [
  | inr e ↦
      let bad : (not has_dev
            || not ((m.regs h).func == read_holding || (m.regs h).func == read_input)
            || not (type_known (m.regs h).type))
          ≡ true =
        ground (arith, e) in
      rw (bad, e) (refl, inl (refl, refl))
  | inl e ↦
      let good : (not has_dev
            || not ((m.regs h).func == read_holding || (m.regs h).func == read_input)
            || not (type_known (m.regs h).type))
          ≡ false =
        ground (arith, e) in
      rw good (enqueue_if-Started echo now has_dev h m e full few)
]
