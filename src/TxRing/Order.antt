-- ===== src/TxRing/Order.antt =====
-- Every packet that the hardware took over is destroyed once, in the order of the sending.
use sec_fw.Common.{
  ℕ, ◌≡◌, refl, ap, sym, ◌∙◌, subst, inl, inr, Bool, List, [], ◌∷◌, ◌++◌, append_assoc, some, arith,
}
use sec_fw.TxRing.{
  TxDone, TxResult, send_over, sw_desc_err, sw_send_err, oct_tx_process_mbuf, oct_tx_done_check,
  hardware_done, oct_rxtx_init,
}
use sec_fw.TxRing.Fifo.{
  Represents, Checked, oct_tx_process_mbuf-Transmitted, oct_tx_done_check-Checked,
}

-- The packets that the hardware took over, with the one just sent.
abbrev pub accepted_after : TxResult → List ℕ → ℕ → List ℕ
accepted_after send_over accepted m = accepted ++ (m ∷ [])
accepted_after sw_desc_err accepted m = accepted
accepted_after sw_send_err accepted m = accepted

-- A ring after packets were sent, the hardware was done with some, and the ring was checked, with the packets that
-- the hardware took over and those that the checks destroyed, each in order.
pub data Sending : TxDone → List ℕ → List ℕ → Type 0 where
  init_ring : Sending oct_rxtx_init [] []
  send :
      {t : TxDone} {accepted freed : List ℕ}
      → (sent : Bool) (m : ℕ) → Sending t accepted freed
      → Sending
          (oct_tx_process_mbuf sent t m).1
          (accepted_after (oct_tx_process_mbuf sent t m).0 accepted m)
          freed
  hardware :
      {t : TxDone} {accepted freed : List ℕ}
      → (i : ℕ) → Sending t accepted freed
      → Sending (hardware_done i t) accepted freed
  check :
      {t : TxDone} {accepted freed : List ℕ}
      → (destroyed : List ℕ) (after : TxDone) → oct_tx_done_check t ≡ some (destroyed, after)
      → Sending t accepted freed
      → Sending after accepted (freed ++ destroyed)

init-Represents : Represents oct_rxtx_init []
init-Represents = record {
  entries = refl;
  bound = omega arith;
  consumer = omega arith;
  producer = refl;
  packets = _;
}

Sending-queue :
    (t : TxDone) (accepted freed : List ℕ)
    → Sending t accepted freed
    → (queue : List ℕ) × Represents t queue × (accepted ≡ freed ++ queue)
Sending-queue _ _ _ init_ring = ([], init-Represents, refl)
Sending-queue _ _ freed (send {t} {accepted} sent m s) =
    let before = Sending-queue t accepted freed s in
    elim (oct_tx_process_mbuf-Transmitted sent t m before.0 before.1) [
      | inl full ↦ (before.0, full.2, rw full.1 before.2)
      | inr (inl failed) ↦ (before.0, failed.2, rw failed.1 before.2)
      | inr (inr ok) ↦ (
        before.0 ++ (m ∷ []),
        ok.2,
        rw ok.1 (ap (λ l. l ++ (m ∷ [])) before.2 ∙ append_assoc freed before.0 (m ∷ [])),
      )
    ]
Sending-queue _ accepted freed (hardware {t} i s) =
    let before = Sending-queue t accepted freed s in
    let r = before.1 in
    (
      before.0,
      record {
        entries = r.entries;
        bound = r.bound;
        consumer = r.consumer;
        producer = r.producer;
        packets = r.packets;
      },
      before.2,
    )
Sending-queue _ accepted _ (check {t} {freed} destroyed after e s) =
    let before = Sending-queue t accepted freed s in
    let c = oct_tx_done_check-Checked t before.0 before.1 in
    let same_freed : c.freed ≡ destroyed = cc (sym c.answer ∙ e) in
    let same_after : c.after ≡ after = cc (sym c.answer ∙ e) in
    (
      c.rest,
      subst (λ u. Represents u c.rest) same_after c.represents,
      before.2
          ∙ ap (λ l. freed ++ l) (c.parts ∙ ap (λ l. l ++ c.rest) same_freed)
          ∙ sym (append_assoc freed destroyed c.rest),
    )

-- The ring of the packets under way is a queue: at any time it holds, in the order of the sending, at most 63
-- packets, which are those that the hardware took over and that were not yet destroyed, each once. The check of the
-- ring ends; it destroys packets from the front that the hardware is done with, up to the first with which
-- it is not.
pub Sending-Checked :
    (t : TxDone) (accepted freed : List ℕ)
    → Sending t accepted freed
    → (queue : List ℕ) × Represents t queue
      × (accepted ≡ freed ++ queue)
      × Checked t queue (oct_tx_done_check t)
Sending-Checked t accepted freed s =
    let q = Sending-queue t accepted freed s in (q.0, q.1, q.2, oct_tx_done_check-Checked t q.0 q.1)
