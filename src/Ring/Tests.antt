-- ===== src/Ring/Tests.antt =====
-- Runs of core/ring.c on a small ring, and the theorems about it applied there.
use osm_firmware_v.Base.{
  ℕ, suc, ◌+◌, ◌<◌, ◌≡◌, refl, List, [], ◌∷◌, ◌++◌, arith, take, drop, length, min, leb, ◌==◌,
}
use osm_firmware_v.Ring.{
  Ring, add, add_data, add_str, read, readline, consume, get_pending, is_full,
}
use osm_firmware_v.Ring.Queue
use osm_firmware_v.Ring.Bounds.{IsValid, gap}
use osm_firmware_v.Ring.Contents.{contents, get_pending-is_full}
use osm_firmware_v.Ring.Write.{add_refines, add_data_lem, add_str_lem, room}
use osm_firmware_v.Ring.Read.{read_refines}
use osm_firmware_v.Ring.Line.{LineRead, readline_lem}
use osm_firmware_v.Ring.Consume.{Consumed, consume-Consumed}
use osm_firmware_v.Ring.Client.{put, get, skip, wipe, run, queue_run, run_refines}

-- "ab" and a line feed, round the end of five bytes of storage.
abbrev wrapped : Ring
wrapped = record { buf = 98 ∷ 10 ∷ 0 ∷ 0 ∷ 97 ∷ []; size = 5; r_pos = 4; w_pos = 2 }

wrapped-IsValid : IsValid wrapped
wrapped-IsValid = omega arith

abbrev five : List ℕ
five = 1 ∷ 2 ∷ 3 ∷ 4 ∷ 5 ∷ []

reads_line : readline wrapped five 5 ≡ (2, 97 ∷ 98 ∷ 0 ∷ 4 ∷ 5 ∷ [], record wrapped { r_pos = 2 })
unfolding readline
reads_line = refl

-- A callback that takes one byte of what it is offered, as a DMA with one byte of room would.
abbrev take_one : List ℕ → ℕ → ℕ → ℕ × ℕ
take_one bytes n sent = (1, suc sent)

consumes_one :
    consume take_one wrapped five 3 7
    ≡ (1, 97 ∷ 98 ∷ 10 ∷ 4 ∷ 5 ∷ [], 8, record wrapped { r_pos = 0 })
unfolding consume
consumes_one = refl

add_refines_example :
    let (added, r) = add wrapped 33 in (added, contents r) ≡ Queue.add 4 (contents wrapped) 33
add_refines_example = add_refines wrapped 33 wrapped-IsValid

add_data_lem_example :
    ((add_data wrapped five).0 ≡ leb 5 (room wrapped))
    × (contents (add_data wrapped five).1 ≡ contents wrapped ++ take (room wrapped) five)
add_data_lem_example = add_data_lem wrapped five wrapped-IsValid

add_str_lem_example : contents (add_str wrapped five) ≡ contents wrapped ++ take (room wrapped) five
add_str_lem_example = add_str_lem wrapped five wrapped-IsValid

read_refines_example :
    let (n, out, r) = read wrapped five 2 in
    ((n, take n out, contents r) ≡ Queue.read (contents wrapped) 2)
    × IsValid r
    × (length out ≡ length five)
    × (drop 2 out ≡ drop 2 five)
read_refines_example = read_refines wrapped five 2 wrapped-IsValid (omega arith)

readline_lem_example :
    LineRead wrapped five 4
      (Queue.find_line (min 4 (length (contents wrapped))) (contents wrapped))
      (readline wrapped five 5)
readline_lem_example = readline_lem wrapped five 4 wrapped-IsValid (omega arith) (omega arith)

consume-Consumed_example : Consumed take_one wrapped five 2 7 (consume take_one wrapped five 2 7)
unfolding gap
consume-Consumed_example =
    consume-Consumed take_one wrapped five 2 2 7 wrapped-IsValid (omega arith) (omega arith)

get_pending-is_full_example :
    (get_pending wrapped ≡ length (contents wrapped))
    × (length (contents wrapped) < 5)
    × (is_full wrapped ≡ (length (contents wrapped) + 1 == 5))
get_pending-is_full_example = get_pending-is_full wrapped wrapped-IsValid

run_refines_example :
    run wrapped (put 1 ∷ put 2 ∷ get 2 ∷ skip 9 ∷ wipe ∷ [])
    ≡ queue_run 4 (contents wrapped) (put 1 ∷ put 2 ∷ get 2 ∷ skip 9 ∷ wipe ∷ [])
run_refines_example =
    run_refines (put 1 ∷ put 2 ∷ get 2 ∷ skip 9 ∷ wipe ∷ []) wrapped wrapped-IsValid
