-- ===== src/Ring/Client.antt =====
-- A client's calls of core/ring.c in order, against the bounded queue.
use osm_firmware_v.Base.{
  ℕ, ◌-◌, ◌≤◌, ◌≡◌, refl, ap, ap₂, sym, ◌∙◌, subst, List, [], ◌∷◌, Bool, arith, take, length,
  replicate, length-replicate,
}
use osm_firmware_v.Ring.{Ring, add, read, discard, clear}
use osm_firmware_v.Ring.Queue
use osm_firmware_v.Ring.Bounds.{IsValid, add-IsValid, clear-IsValid, size-add}
use osm_firmware_v.Ring.Contents.{contents, contents-clear}
use osm_firmware_v.Ring.Write.{add_refines}
use osm_firmware_v.Ring.Read.{read_refines, discard-read, size-read}

pub data Call : Type 0 where
  put get skip : ℕ → Call
  wipe : Call

-- What a client sees of a call.
pub data Reply : Type 0 where
  was_put : Bool → Reply
  got : List ℕ → Reply
  skipped : ℕ → Reply
  wiped : Reply

-- One call on the ring; a read of `n` bytes is given a buffer of `n` bytes.
unfoldable pub step : Ring → Call → Reply × Ring
step r (put c) = let (added, r') = add r c in (was_put added, r')
step r (get n) = let (m, out, r') = read r (replicate n 0) n in (got (take m out), r')
step r (skip n) = let (m, r') = discard r n in (skipped m, r')
step r wipe = (wiped, clear r)

unfoldable pub run : Ring → List Call → List Reply
unfolding step
run r [] = []
run r (c ∷ cs) = let (reply, r') = step r c in reply ∷ run r' cs

-- The same calls on the queue.
unfoldable pub queue_step : ℕ → List ℕ → Call → Reply × List ℕ
queue_step cap q (put c) = let (added, q') = Queue.add cap q c in (was_put added, q')
queue_step cap q (get n) = let (m, bytes, q') = Queue.read q n in (got bytes, q')
queue_step cap q (skip n) = let (m, bytes, q') = Queue.read q n in (skipped m, q')
queue_step cap q wipe = (wiped, [])

unfoldable pub queue_run : ℕ → List ℕ → List Call → List Reply
unfolding queue_step
queue_run cap q [] = []
queue_run cap q (c ∷ cs) = let (reply, q') = queue_step cap q c in reply ∷ queue_run cap q' cs

-- One call gives the queue's reply, leaves the queue's contents and keeps the ring valid.
abbrev Steps : Ring → Call → Type 0
Steps r c =
    ((step r c).0 ≡ (queue_step (r.size - 1) (contents r) c).0)
    × (contents (step r c).1 ≡ (queue_step (r.size - 1) (contents r) c).1)
    × IsValid (step r c).1
    × ((step r c).1.size ≡ r.size)

step-Steps : (c : Call) (r : Ring) → IsValid r → Steps r c
unfolding step queue_step clear
step-Steps (put c) r v =
    let e = add_refines r c v in
    (ap (λ p. was_put p.0) e, ap (λ p. p.1) e, add-IsValid r c v, size-add r c)
step-Steps (get n) r v =
    let room : n ≤ length (replicate {A = ℕ} n 0) = omega (arith, length-replicate {A = ℕ} n 0) in
    let (e, valid, _, _) = read_refines r (replicate n 0) n v room in
    (ap (λ p. got p.1) e, ap (λ p. p.2) e, valid, size-read r (replicate n 0) n)
step-Steps (skip n) r v =
    let room : n ≤ length (replicate {A = ℕ} n 0) = omega (arith, length-replicate {A = ℕ} n 0) in
    let (e, valid, _, _) = read_refines r (replicate n 0) n v room in
    let d = discard-read r (replicate n 0) n in
    (
      ap (λ p. skipped p.0) d ∙ ap (λ p. skipped p.0) e,
      ap (λ p. contents p.1) d ∙ ap (λ p. p.2) e,
      subst (λ p. IsValid p.1) (sym d) valid,
      ap (λ p. p.1.size) d ∙ size-read r (replicate n 0) n,
    )
step-Steps wipe r v = (refl, contents-clear r, clear-IsValid v, refl)

-- No sequence of writes, reads, discards and clears tells a valid ring from a queue that holds
-- its contents and has room for one byte less than the storage.
pub run_refines :
    (cs : List Call) (r : Ring) → IsValid r → run r cs ≡ queue_run (r.size - 1) (contents r) cs
unfolding run queue_run
run_refines [] r v = refl
run_refines (c ∷ cs) r v =
    let (reply, rest, valid, same) = step-Steps c r v in
    ap₂ ◌∷◌ reply
      (run_refines cs (step r c).1 valid ∙ ap₂ (λ k q. queue_run (k - 1) q cs) same rest)
