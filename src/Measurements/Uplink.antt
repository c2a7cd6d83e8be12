-- ===== src/Measurements/Uplink.antt =====
-- core/measurements.c with protocols/hexblob.c as its protocol module: the fragments of one
-- transmission, byte for byte.
use osm_firmware_v.Base.{
  ℕ, ◌+◌, ◌%◌, ◌≤◌, ◌<◌, ◌≡◌, ◌⊎◌, inl, inr, refl, ap, ◌∙◌, arith, Bool, true, false, not, ◌&&◌,
  List, [], ◌∷◌, some, ◌==◌, Bool-cases, length, length-set, length-replicate, take, drop, set,
  replicate,
}
use osm_firmware_v.Hexblob.{Ctx, protocol_init, payload_version}
use osm_firmware_v.Hexblob.Append.{Ready, append_i8_room}
use osm_firmware_v.Hexblob.Measurement.{measurement_bytes, is_known, Settled}
use osm_firmware_v.Measurements.Send.{Entry, is_due, Sender, transmit}
use osm_firmware_v.Measurements.Fragments.{waiting, all_passed, all_bytes, all_held}
use osm_firmware_v.Measurements.Transmission.{AllFit, transmit-waiting}
use osm_firmware_v.Measurements.Entries.{
  Raw, as_def, as_sampled, append_entry, entry_bytes, body_of, Begun, append_entry-Settled,
  append_entry-IsPayload, body_of-take,
}

-- The measurements' value types are known, and each has room in a payload of its own.
unfoldable pub AllSendable : Raw → ℕ → List Entry → Type 0
AllSendable raw buflen [] = Unit
AllSendable raw buflen (e ∷ es) =
    (is_known e.samples.value_type ≡ true)
    × (1 + length (measurement_bytes (as_def e) (as_sampled raw e)) ≤ buflen)
    × AllSendable raw buflen es

-- The payload as _protocol_init leaves it.
init-Ready :
    (buflen : ℕ)
    → 0 < buflen
    → (b : List ℕ) × Ready b (protocol_init buflen).1
      × ((protocol_init buflen).1.pos ≡ 1)
      × ((protocol_init buflen).1.buflen ≡ buflen)
unfolding protocol_init
init-Ready buflen h =
    let start : Ctx = record { buf = some (replicate buflen 0); buflen = buflen; pos = 0 } in
    let len = length-replicate {A = ℕ} buflen 0 in
    rw (append_i8_room (replicate buflen 0) start payload_version refl h) (
      set (replicate buflen 0) 0 (payload_version % 256),
      record {
        array = refl;
        fits = omega (arith, length-set (replicate buflen 0) 0 (payload_version % 256), len);
        within = omega arith;
      },
      refl,
      refl,
    )

version_only : (b : List ℕ) → drop 1 (take 1 b) ≡ []
version_only [] = refl
version_only (x ∷ xs) = refl

-- Alone in a payload, a measurement that has room is taken.
Settled-fits :
    (b : List ℕ) (c : Ctx) (vs : List ℕ) (known : Bool) (res : Bool × Ctx)
    → known ≡ true
    → c.pos + length vs ≤ c.buflen
    → Settled b c vs known res
    → res.0 ≡ true
Settled-fits b c vs known (done, c') k room (b', ready, len, same, fits, at, bytes) =
    fits ∙ (rw k (ground arith))

module _ (raw : Raw) (buflen count : ℕ) where
  fits_fresh :
      (e : Entry)
      → 0 < buflen
      → (e.samples.num_samples == 0) ≡ false
      → is_known e.samples.value_type ≡ true
      → 1 + length (measurement_bytes (as_def e) (as_sampled raw e)) ≤ buflen
      → (append_entry raw e (protocol_init buflen).1).0 ≡ true
  fits_fresh e h sampled known room =
      let (b, ready, at, len) = init-Ready buflen h in
      Settled-fits b (protocol_init buflen).1 (measurement_bytes (as_def e) (as_sampled raw e))
        (is_known e.samples.value_type) (append_entry raw e (protocol_init buflen).1) known
        (omega (arith, at, len, room))
        (append_entry-Settled raw e b (protocol_init buflen).1 ready sampled)

  AllSendable-AllFit :
      (es : List Entry)
      → 0 < buflen
      → AllSendable raw buflen (waiting count es)
      → AllFit
          (append_entry raw)
          (entry_bytes raw)
          body_of
          Begun
          (append_entry-IsPayload raw)
          count
          (protocol_init buflen).1
          (waiting count es)
  unfolding waiting AllSendable AllFit
  AllSendable-AllFit [] h fit = tt
  AllSendable-AllFit (e ∷ es) h fit =
      elim (Bool-cases (is_due count e && not (e.samples.num_samples == 0))) [
        | inr stays ↦ rw stays (AllSendable-AllFit es h (rw stays at fit))
        | inl out ↦
            let (known, room, rest) = rw out at fit in
            rw out (fits_fresh e h (ground (arith, out)) known room, AllSendable-AllFit es h rest)
      ]

  -- With hexblob.c as the protocol module and a payload of buflen bytes, one at least, let each
  -- measurement that is due and has a sample be of a known value type and have room in a payload
  -- of its own. From the start of a transmission, with more rounds than places in the table,
  -- sending one fragment after the other, as acknowledgements make the code do, ends; behind
  -- their versions the payloads hold together the bytes of every such measurement, exactly once
  -- and in the order of the table; these are cleared, as the counters of those due without a
  -- sample are, and nothing is pending.
  pub transmit-entry_bytes :
      (s : Sender) (k : ℕ)
      → 0 < buflen
      → (s.chunk_start_pos ≡ 0) ⊎ (s.chunk_start_pos ≡ length s.entries)
      → s.pending_send ≡ false
      → AllSendable raw buflen (waiting count s.entries)
      → length s.entries < k
      → (payloads : List Ctx) × (s' : Sender) × (transmit
            (append_entry raw)
            count
            (protocol_init buflen).1
            k
            s
          ≡ some (payloads, s'))
        × (all_held body_of payloads ≡ all_bytes (entry_bytes raw) (waiting count s.entries))
        × (s'.entries ≡ all_passed count s.entries)
        × (s'.pending_send ≡ false)
  transmit-entry_bytes s k h start not_pending fit enough =
      let (b, ready, at, len) = init-Ready buflen h in
      let nothing : body_of (protocol_init buflen).1 ≡ [] =
        body_of-take b (protocol_init buflen).1 ready
        ∙ ap (λ i. drop 1 (take i b)) at
        ∙ version_only b in
      transmit-waiting (append_entry raw) (entry_bytes raw) body_of Begun
        (append_entry-IsPayload raw) count (protocol_init buflen).1 nothing
        (b, ready, omega (arith, at)) s k start not_pending (AllSendable-AllFit s.entries h fit)
        enough
