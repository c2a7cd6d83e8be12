-- ===== src/Modbus/Process/Enqueue.antt =====
-- A register that joins the message queue of osm_modbus_start_read where there is room.
use osm_firmware_v.Base.{
  ℕ, ◌%◌, ◌<◌, ◌≡◌, ◌⊎◌, inl, inr, refl, ap, sym, ◌∙◌, Bool, true, false, List, [], ◌∷◌, ◌++◌, ◌==◌,
  length, arith, Bool-cases, ltb, ==_refl, append-nil, subst, if◌then◌else◌,
}
use osm_firmware_v.Modbus.{Reg, reg_waiting}
use osm_firmware_v.Modbus.Send.{read_holding, read_input}
use osm_firmware_v.Modbus.Frames.{framed, with_crc, read_request}
use osm_firmware_v.Modbus.Requests.{do_start_read-request}
use osm_firmware_v.Modbus.Receive.{Master, slots, put_reg, request_reg}
use osm_firmware_v.Modbus.Process.{enqueue}

abbrev pub request_frame : Master → Reg → List ℕ
request_frame m reg =
    framed m.link.binary
      (with_crc (read_request (reg.unit_id % 256) reg.reg_addr reg.func reg.type))

-- What asking for a register leaves.
abbrev Asked : ℕ → Master → Master → Type 0
Asked h m m' =
    (m'.queue ≡ m.queue)
    × (m'.regs ≡ put_reg m.regs h (record (m.regs h) { value_state = reg_waiting }))
    × (m'.link.want_rx ≡ true)
    × (m'.link.out ≡ m.link.out ++ request_frame m (m.regs h))

request_reg-Asked :
    (echo : Bool) (now h : ℕ) (m : Master)
    → ((m.regs h).func ≡ read_holding) ⊎ ((m.regs h).func ≡ read_input)
    → length m.link.tx ≡ 20
    → Asked h m (request_reg echo now h m)
unfolding request_reg
request_reg-Asked echo now h m f full =
    let (reg, waits, out) = do_start_read-request echo now (m.regs h) m.link f full in
    (refl, ap (put_reg m.regs h) reg, waits, out)

-- A queue with room: the register joins it.
abbrev pub Entered : ℕ → Master → Bool × Master → Type 0
Entered h m (done, m') =
    (done ≡ true)
    × (m'.queue ≡ m.queue ++ (h ∷ []))
    × ((i : ℕ) → m'.regs i ≡ put_reg m.regs h (record (m.regs h) { value_state = reg_waiting }) i)
    × (m'.link.want_rx ≡ true)
    × (m'.link.out ≡ m.link.out ++ (if m.link.want_rx then [] else request_frame m (m.regs h)))

-- Written twice, the register is as written last.
put_twice :
    (regs : ℕ → Reg) (h i : ℕ) (a b : Reg) → put_reg (put_reg regs h a) h b i ≡ put_reg regs h b i
put_twice regs h i a b = elim (Bool-cases (i == h)) [ inl e ↦ rw e refl | inr e ↦ rw e refl ]

abbrev pub queued : ℕ → Master → Master
queued h m = record m {
  queue = m.queue ++ (h ∷ []);
  regs = put_reg m.regs h (record (m.regs h) { value_state = reg_waiting });
}

Asked-Entered :
    (h : ℕ) (m m' : Master)
    → m.link.want_rx ≡ false
    → (put_reg m.regs h (record (m.regs h) { value_state = reg_waiting }) h
        ≡ record (m.regs h) { value_state = reg_waiting })
    → Asked h (queued h m) m'
    → Entered h m (true, m')
Asked-Entered h m m' idle here (queue, regs, waits, out) = (
  refl,
  queue,
  λ i.
      ap (λ f. f i) regs
      ∙ put_twice m.regs h i _ _
      ∙ ap (λ r. put_reg m.regs h (record r { value_state = reg_waiting }) i) here,
  waits,
  out
      ∙ ap (λ r. m.link.out ++ request_frame m r) here
      ∙ ap (λ b. m.link.out ++ (if b then [] else request_frame m (m.regs h))) (sym idle),
)

choose_first : (b : Bool) (x y : Master) → b ≡ true → (if b then x else y) ≡ x
choose_first b x y e = rw e refl

choose_second : (b : Bool) (x y : Master) → b ≡ false → (if b then x else y) ≡ y
choose_second b x y e = rw e refl

enqueue-room :
    (echo : Bool) (now h : ℕ) (m : Master)
    → length m.queue < slots
    → enqueue echo now h m
      ≡ (true, if m.link.want_rx then queued h m else request_reg echo now h (queued h m))
unfolding enqueue
enqueue-room echo now h m few =
    let fits : ltb (length m.queue) slots ≡ true = ground arith in rw fits refl

deferred-Entered :
    (h : ℕ) (m : Master) (b : Bool) → b ≡ m.link.want_rx → b ≡ true → Entered h m (true, queued h m)
deferred-Entered h m b same busy = (
  refl,
  refl,
  λ i. refl,
  sym same ∙ busy,
  sym (append-nil m.link.out)
      ∙ ap (λ x. m.link.out ++ (if x then [] else request_frame m (m.regs h))) (sym busy ∙ same),
)

pub enqueue-Entered :
    (echo : Bool) (now h : ℕ) (m : Master)
    → ((m.regs h).func ≡ read_holding) ⊎ ((m.regs h).func ≡ read_input)
    → length m.link.tx ≡ 20
    → length m.queue < slots
    → Entered h m (enqueue echo now h m)
enqueue-Entered echo now h m f full few =
    let here : put_reg m.regs h (record (m.regs h) { value_state = reg_waiting }) h
        ≡ record (m.regs h) { value_state = reg_waiting } =
      rw (==_refl h) refl in
    let func : (put_reg m.regs h (record (m.regs h) { value_state = reg_waiting }) h).func
        ≡ (m.regs h).func =
      ap (λ r. r.func) here in
    let asked : Master = request_reg echo now h (queued h m) in
    elim (Bool-cases m.link.want_rx) [
      | inl e ↦
          subst (Entered h m)
            (sym (
              enqueue-room echo now h m few
              ∙ ap (λ r. (true, r)) (choose_first m.link.want_rx (queued h m) asked e)))
            (deferred-Entered h m m.link.want_rx refl e)
      | inr e ↦
          subst (Entered h m)
            (sym (
              enqueue-room echo now h m few
              ∙ ap (λ r. (true, r)) (choose_second m.link.want_rx (queued h m) asked e)))
            (Asked-Entered h m asked e here
              (request_reg-Asked echo now h (queued h m) (rw func f) full))
    ]
