-- ===== src/Tests/Ring.antt =====
-- Runs of the ring of packets under way.
use sec_fw.Common.{ℕ, zero, suc, ◌≡◌, refl, true, List, [], ◌∷◌, ◌++◌, Option, none, some}
use sec_fw.TxRing.{
  TxDone, TxResult, oct_pend_tx_done_add, oct_tx_process_mbuf, check_loop, oct_tx_done_check,
  hardware_done, oct_rxtx_init,
}
use sec_fw.TxRing.Fifo.{Represents, Checked}
use sec_fw.TxRing.Order.{init_ring, send, hardware, Sending-Checked}

-- The packets 7 and 8 are sent, and the hardware is done with the first.
abbrev one_done : TxDone
one_done =
    hardware_done 0 (oct_tx_process_mbuf true (oct_tx_process_mbuf true oct_rxtx_init 7).1 8).1

ring_example :
    (queue : List ℕ) × Represents one_done queue
    × (7 ∷ 8 ∷ [] ≡ [] ++ queue)
    × Checked one_done queue (oct_tx_done_check one_done)
unfolding oct_tx_process_mbuf oct_pend_tx_done_add
ring_example =
    Sending-Checked one_done (7 ∷ 8 ∷ []) [] (hardware 0 (send true 8 (send true 7 init_ring)))

abbrev freed_by : Option (List ℕ × TxDone) → List ℕ
freed_by none = []
freed_by (some r) = r.0

one_freed : freed_by (oct_tx_done_check one_done) ≡ 7 ∷ []
unfolding oct_tx_process_mbuf oct_pend_tx_done_add oct_tx_done_check check_loop
one_freed = refl

abbrev fill : ℕ → TxDone → TxDone
fill zero t = t
fill (suc n) t = fill n (oct_tx_process_mbuf true t n).1

-- The descriptor 64 is one too many.
ring_full : (oct_tx_process_mbuf true (fill 63 oct_rxtx_init) 100).0 ≡ TxResult.sw_desc_err
unfolding oct_tx_process_mbuf oct_pend_tx_done_add
ring_full = refl
