-- ===== src/TxRing.antt =====
-- dataplane/src/platform/oct-rxtx.c: the ring of software packets of a port that the hardware is sending. The
-- hardware clears mem_ref of a packet when it is done. A packet is the number of its mbuf; the status of the
-- sending is an argument. The count over all ports, which nothing reads, is left out.
pub mod Fifo
pub mod Order
use sec_fw.Common.{
  ℕ, zero, suc, ◌+◌, ◌-◌, ◌%◌, Bool, true, false, ◌==◌, ltb, if◌then◌else◌, List, [], ◌∷◌, Option,
  none, some,
}

abbrev pub oct_pko_tx_desc_num : ℕ
oct_pko_tx_desc_num = 64

-- tx_done_t, with the fields of oct_pko_pend_tx_done_t by their index.
pub record TxDone : Type 0 where
  pub tx_entries : ℕ
  pub producer : ℕ
  pub consumer : ℕ
  pub mem_ref : ℕ → ℕ
  pub mb : ℕ → ℕ

abbrev pub write : (ℕ → ℕ) → ℕ → ℕ → ℕ → ℕ
write f i v j = if j == i then v else f j

unfoldable pub oct_pend_tx_done_add : TxDone → ℕ → TxDone
oct_pend_tx_done_add t m = record t {
  tx_entries = t.tx_entries + 1;
  producer = (t.producer + 1) % oct_pko_tx_desc_num;
  mem_ref = write t.mem_ref t.producer 255;
  mb = write t.mb t.producer m;
}

unfoldable pub oct_pend_tx_done_remove : TxDone → TxDone
oct_pend_tx_done_remove t = record t {
  tx_entries = t.tx_entries - 1;
  producer = (t.producer + (oct_pko_tx_desc_num - 1)) % oct_pko_tx_desc_num;
}

-- What became of a software packet: taken over by the hardware, or destroyed for want of a descriptor or because
-- the sending failed.
pub data TxResult : Type 0 where
  send_over sw_desc_err sw_send_err : TxResult

-- The branch of oct_tx_process_mbuf for a packet in a software buffer.
unfoldable pub oct_tx_process_mbuf : Bool → TxDone → ℕ → TxResult × TxDone
oct_tx_process_mbuf sent t m =
    let added = oct_pend_tx_done_add t m in
    if ltb t.tx_entries (oct_pko_tx_desc_num - 1)
    then if sent then (send_over, added) else (sw_send_err, oct_pend_tx_done_remove added)
    else (sw_desc_err, t)

-- The loop of oct_tx_done_check, with the packets that it destroys; `none` is the end of the fuel.
unfoldable pub check_loop : ℕ → TxDone → Option (List ℕ × TxDone)
check_loop zero t = none
check_loop (suc fuel) t =
    let rest = check_loop fuel (record t {
      consumer = (t.consumer + 1) % oct_pko_tx_desc_num;
      tx_entries = t.tx_entries - 1;
    }) in
    if t.consumer == t.producer
    then some ([], t)
    else if t.mem_ref t.consumer == 255
    then some ([], t)
    else elim rest [ none ↦ none | some r ↦ some (t.mb t.consumer ∷ r.0, r.1) ]

-- oct_tx_done_check for one port
unfoldable pub oct_tx_done_check : TxDone → Option (List ℕ × TxDone)
oct_tx_done_check t = if t.tx_entries == 0 then some ([], t) else check_loop oct_pko_tx_desc_num t

-- The hardware is done with the packet at an index.
abbrev pub hardware_done : ℕ → TxDone → TxDone
hardware_done i t = record t { mem_ref = write t.mem_ref i 0 }

-- What oct_rxtx_init leaves.
abbrev pub oct_rxtx_init : TxDone
oct_rxtx_init = record { tx_entries = 0; producer = 0; consumer = 0; mem_ref = λ i. 0; mb = λ i. 0 }
