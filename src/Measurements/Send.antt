-- ===== src/Measurements/Send.antt =====
-- core/measurements.c: the measurements that are due go out in fragments, each as much as the
-- payload takes. The protocol module, which a build chooses, is a parameter: `append` is
-- osm_protocol_append_measurement on its state. Debug output is left out.
use osm_firmware_v.Base.{
  ℕ, zero, suc, Option, none, some, ◌+◌, ◌%◌, Bool, true, false, not, ◌&&◌, List, [], ◌∷◌, ◌++◌,
  ◌==◌, if◌then◌else◌, length, take, drop,
}
use osm_firmware_v.Base.Ints.{pos}
use osm_firmware_v.Measurements.{Def, Data, value_64, first_stats}

-- A place of `_measurements_arr`.
pub record Entry : Type 0 where
  pub def : Def
  pub samples : Data
  pub has_sent : Bool

-- `def->interval && (_interval_count % def->interval == 0)`
abbrev pub is_due : ℕ → Entry → Bool
is_due count e = not (e.def.interval == 0) && (count % e.def.interval == 0)

-- Due, but without a sample.
unfoldable pub unsampled : Entry → Entry
unsampled e = record e {
  samples = record e.samples { num_samples_init = 0; num_samples_collected = 0 };
}

-- Appended; the value is zeroed.
unfoldable pub sent : Entry → Entry
sent e = record e {
  has_sent = true;
  samples = record e.samples {
    value = value_64 (first_stats (pos 0));
    num_samples = 0;
    num_samples_init = 0;
    num_samples_collected = 0;
  };
}

-- Where the loop ends, the entries from its start on, the payload, and `num_qd`.
pub record Queued (P : Type 0) : Type 0 where
  pub stop : ℕ
  pub entries : List Entry
  pub payload : P
  pub num_qd : ℕ

abbrev pub behind : {P : Type 0} → Entry → ℕ → Queued P → Queued P
behind e n q = record q { entries = e ∷ q.entries; num_qd = n + q.num_qd }

-- The parts of the state that a transmission uses.
pub record Sender : Type 0 where
  pub entries : List Entry
  pub chunk_start_pos : ℕ
  pub chunk_prev_start_pos : ℕ
  pub pending_send : Bool

module _ {P : Type 0} (append : Entry → P → Bool × P) where
  -- The loop of _measurements_send from place `i` on.
  unfoldable pub queue_from : ℕ → List Entry → ℕ → P → Queued P
  queue_from count [] i p = record { stop = i; entries = []; payload = p; num_qd = 0 }
  queue_from count (e ∷ es) i p = elim (is_due count e) [
    | false ↦ behind e 0 (queue_from count es (i + 1) p)
    | true ↦ elim (e.samples.num_samples == 0) [
      | true ↦ behind (unsampled e) 0 (queue_from count es (i + 1) p)
      | false ↦ elim (append e p).0 [
        | false ↦ record { stop = i; entries = e ∷ es; payload = (append e p).1; num_qd = 0 }
        | true ↦ behind (sent e) 1 (queue_from count es (i + 1) (append e p).1)
      ]
    ]
  ]

  -- A start at the end is a start at place 0.
  abbrev pub start_of : Sender → ℕ
  start_of s = if s.chunk_start_pos == length s.entries then 0 else s.chunk_start_pos

  -- The state after the loop; a null chunk_start_pos is a previous start at 0.
  unfoldable pub after_queue : Sender → Queued P → Sender
  after_queue s q = record {
    entries = take (start_of s) s.entries ++ q.entries;
    chunk_start_pos = q.stop;
    chunk_prev_start_pos = start_of s;
    pending_send = if q.num_qd == 0 then s.pending_send else not (q.stop == length s.entries);
  }

  -- _measurements_send from the loop to osm_protocol_send, which sends the payload.
  unfoldable pub send_fragment : ℕ → P → Sender → Queued P × Sender
  send_fragment count fresh s =
      let q = queue_from count (drop (start_of s) s.entries) (start_of s) fresh in
      (q, after_queue s q)

  abbrev pub with_payload : P → Option (List P × Sender) → Option (List P × Sender)
  with_payload p none = none
  with_payload p (some (ps, s)) = some (p ∷ ps, s)

  -- More while `_pending_send`.
  unfoldable pub go_on : Queued P × Sender → Option (List P × Sender) → Option (List P × Sender)
  go_on (q, s) more = elim s.pending_send [
    | false ↦ some (q.payload ∷ [], s)
    | true ↦ with_payload q.payload more
  ]

  -- One fragment after the other, as long as each is acknowledged: the payloads, on fuel. An empty
  -- payload is not sent. The times, and the marks `has_sent` that an acknowledgement takes back, are
  -- left out.
  unfoldable pub transmit : ℕ → P → ℕ → Sender → Option (List P × Sender)
  transmit count fresh zero s = none
  transmit count fresh (suc k) s =
      let fragment = send_fragment count fresh s in
      go_on fragment (transmit count fresh k fragment.1)
