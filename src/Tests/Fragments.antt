-- ===== src/Tests/Fragments.antt =====
-- Runs of the reassembly on fragments of eight bytes.
use sec_fw.Common.{ℕ, ◌+◌, ◌≡◌, refl, Bool, true, false, List, [], ◌∷◌, arith, get_or}
use sec_fw.Defrag.{
  Fragment, Fcb, dropped, reassembled, frag_defrag_process, fcb_create, frag_defrag_reasm,
}
use sec_fw.Tests.Dataplane.{packet}
use sec_fw.Defrag.Chain.{Apart, Tiles, total_len}
use sec_fw.Defrag.Collect.{IsOpen, Result, joined_bytes}
use sec_fw.Defrag.Process.{Unjoined, frag_defrag_process-Result, frag_defrag_process-IsDone}
use sec_fw.Defrag.Payload.{frag_defrag_reasm-data}
use sec_fw.Defrag.Arrival.{second_after_third-dropped}
use sec_fw.Defrag.InOrder.{deliver, in_order-reassembled}

-- A header of 20 bytes, and eight bytes of data.
abbrev pub bytes : ℕ → List ℕ
bytes x =
    0x45 ∷ 0 ∷ 0 ∷ 0 ∷ 0 ∷ 0 ∷ 0 ∷ 0 ∷ 0 ∷ 0 ∷ 0 ∷ 0 ∷ 0 ∷ 0 ∷ 0 ∷ 0 ∷ 0 ∷ 0 ∷ 0 ∷ 0 ∷ x ∷ x ∷ x ∷ x
    ∷ x ∷ x ∷ x ∷ x ∷ []

abbrev pub fragment : ℕ → Bool → Fragment
fragment offset more = record {
  frag_offset = offset;
  frag_len = 8;
  more = more;
  network = 0;
  pkt = bytes (offset + 1);
  mbuf = packet;
}

abbrev pub always : ℕ → Bool
always n = true

-- The first of two fragments has come.
abbrev waiting : Fcb
waiting = record fcb_create {
  fragments = fragment 0 true ∷ [];
  total_fraglen = 8;
  meat = 8;
  first_in = true;
}

waiting-IsOpen : IsOpen waiting
unfolding Apart total_len
waiting-IsOpen = record { apart = omega arith; counted = refl; whole = omega arith }

process_example :
    Result waiting (fragment 8 false) (frag_defrag_process always (fragment 8 false) waiting)
process_example =
    frag_defrag_process-Result always (fragment 8 false) waiting waiting-IsOpen (omega arith)

abbrev joined : Fcb
joined = record fcb_create {
  total_fraglen = 16;
  meat = 16;
  first_in = true;
  last_in = true;
  complete = true;
}

done_example : Unjoined (frag_defrag_process always (fragment 8 true) joined)
done_example =
    frag_defrag_process-IsDone always (fragment 8 true) joined
      (record { marked = refl; ended = refl; filled = omega arith }) (omega arith)

two_fill : Tiles 0 (fragment 0 true ∷ fragment 8 false ∷ []) 16
unfolding Tiles
two_fill = (refl, (refl, refl))

-- Both fragments are there.
abbrev complete_block : Fcb
complete_block = record waiting {
  fragments = fragment 0 true ∷ fragment 8 false ∷ [];
  total_fraglen = 16;
  meat = 16;
  last_in = true;
}

two_joined :
    (frag_defrag_reasm always complete_block).0
    ≡ reassembled (joined_bytes 16 (fragment 0 true) (fragment 8 false ∷ []))
unfolding frag_defrag_reasm
two_joined = refl

data_example :
    get_or (joined_bytes 16 (fragment 0 true) (fragment 8 false ∷ [])) (20 + (8 + 3)) 0
    ≡ get_or (bytes 9) (20 + 3) 0
data_example =
    frag_defrag_reasm-data always complete_block (fragment 0 true) (fragment 8 false ∷ [])
      (fragment 0 true ∷ []) (fragment 8 false) [] 16 3
      (joined_bytes 16 (fragment 0 true) (fragment 8 false ∷ [])) refl refl two_fill
      (omega arith, (omega arith, tt)) (omega arith) two_joined (omega arith)

abbrev gap : Fcb
gap = record fcb_create {
  fragments = fragment 0 true ∷ fragment 16 false ∷ [];
  total_fraglen = 24;
  meat = 16;
  first_in = true;
  last_in = true;
}

lost_example : (frag_defrag_process always (fragment 8 true) gap).0 ≡ dropped
lost_example =
    second_after_third-dropped always (fragment 8 true) gap (fragment 0 true) (fragment 16 false)
      refl refl refl (omega arith) (omega arith)

one_fills : Tiles 0 (fragment 0 true ∷ []) 8
unfolding Tiles
one_fills = (refl, refl)

in_order_example :
    (frag_defrag_process always
      (fragment 8 false)
      (deliver always (fragment 0 true ∷ []) fcb_create)).0
    ≡ reassembled (joined_bytes 16 (fragment 0 true) (fragment 8 false ∷ []))
in_order_example =
    in_order-reassembled always (fragment 0 true ∷ []) (fragment 8 false) (fragment 0 true)
      (fragment 8 false ∷ []) ((omega arith, refl), tt) (omega arith) refl one_fills refl
      (omega arith) refl
