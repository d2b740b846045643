-- ===== src/Defrag.antt =====
-- dataplane/src/decode/decode-defrag.c: how the fragments of a datagram are put together. A packet is
-- its bytes; whether there is memory for the new packet is an argument.
pub mod Chain
pub mod Collect
pub mod Process
pub mod Payload
pub mod Arrival
pub mod InOrder
pub mod Table
pub mod Search
pub mod Blocks
pub mod Ageing
use sec_fw.Common.{
  ℕ, zero, suc, ◌+◌, ◌-◌, ◌*◌, ◌/◌, ◌%◌, ◌^◌, Bool, true, false, not, ◌&&◌, ◌||◌, ◌==◌, ltb, leb,
  if◌then◌else◌, List, [], ◌∷◌, ◌++◌, Option, none, some, length, drop, get_or, set,
}
use sec_fw.RuleTuple.{read16}
use sec_fw.Mbuf.{Mbuf}

-- A cached packet: the fields of its mbuf that the list is kept by, its bytes, and `mbuf`, from which the first
-- fragment gives the new packet its other fields. `network` is the distance of network_header from pkt_ptr, and
-- `more` the flag MF.
pub record Fragment : Type 0 where
  pub frag_offset : ℕ
  pub frag_len : ℕ
  pub more : Bool
  pub network : ℕ
  pub pkt : List ℕ
  pub mbuf : Mbuf

-- fcb_t. The fragments run from `fragments` to `fragments_tail`; the bits of last_in and the one bit of
-- status are Booleans.
pub record Fcb : Type 0 where
  pub fragments : List Fragment
  pub total_fraglen : ℕ
  pub meat : ℕ
  pub first_in : Bool
  pub last_in : Bool
  pub complete_in : Bool
  pub complete : Bool

-- fcb_create
abbrev pub fcb_create : Fcb
fcb_create = record {
  fragments = [];
  total_fraglen = 0;
  meat = 0;
  first_in = false;
  last_in = false;
  complete_in = false;
  complete = false;
}

-- What became of a fragment: kept, destroyed, the reassembled packet, or no packet for want of memory
-- or because it would be too long.
pub data Verdict : Type 0 where
  cached dropped failed : Verdict
  reassembled : List ℕ → Verdict

-- `pkt_ptr + pkt_totallen - frag_len`
unfoldable pub fragment_data : Fragment → List ℕ
fragment_data f = drop (length f.pkt - f.frag_len) f.pkt

-- The loop of Frag_defrag_reasm that copies the later fragments.
unfoldable pub copy_rest : List Fragment → List ℕ
copy_rest [] = []
copy_rest (f ∷ fs) = fragment_data f ++ copy_rest fs

-- IPV4_GET_HLEN
abbrev pub ipv4_get_hlen : List ℕ → ℕ → ℕ
ipv4_get_hlen pkt network = get_or pkt network 0 % 16 * 4

-- The sum of `n` 16-bit words from byte `i` on.
unfoldable pub sum_words : List ℕ → ℕ → ℕ → ℕ
sum_words pkt i zero = 0
sum_words pkt i (suc n) = read16 pkt i + sum_words pkt (i + 2) n

-- IPV4CalculateChecksum: all words of the header but the checksum itself.
unfoldable pub ipv4_calculate_checksum : List ℕ → ℕ → ℕ → ℕ
ipv4_calculate_checksum pkt network hlen =
    let csum =
      sum_words pkt network 5
      + sum_words pkt (network + 12) 4
      + sum_words pkt (network + 20) ((hlen - 20) / 2) in
    let once = csum / 2 ^ 16 + csum % 2 ^ 16 in
    let twice = once + once / 2 ^ 16 in 2 ^ 16 - 1 - twice % 2 ^ 16

abbrev pub set16 : List ℕ → ℕ → ℕ → List ℕ
set16 pkt i v = set (set pkt i (v / 256 % 256)) (i + 1) (v % 256)

-- The length, the fragment field and the checksum of the new header, at offsets 2, 6 and 10.
unfoldable pub finish_header : List ℕ → ℕ → ℕ → ℕ → List ℕ
finish_header pkt network ihlen len =
    let unfragmented = set16 (set16 pkt (network + 2) len) (network + 6) 0 in
    set16 unfragmented (network + 10) (ipv4_calculate_checksum unfragmented network ihlen)

abbrev pub ipv4_pktlen_max : ℕ
ipv4_pktlen_max = 65535

-- Frag_defrag_reasm, where `memory` says whether Frag_defrag_setup gets a packet of a size.
unfoldable pub frag_defrag_reasm : (ℕ → Bool) → Fcb → Verdict × Fcb
frag_defrag_reasm memory fcb = elim fcb.fragments [
  | [] ↦ (Verdict.failed, fcb)
  | head ∷ next ↦
      let ihlen = ipv4_get_hlen head.pkt head.network in
      let len = ihlen + fcb.total_fraglen in
      if ltb ipv4_pktlen_max len
      then (Verdict.failed, fcb)
      else if memory (fcb.total_fraglen + (head.network + ihlen))
      then (
        Verdict.reassembled (finish_header (head.pkt ++ copy_rest next) head.network ihlen len),
        record fcb { fragments = []; complete = true },
      )
      else (Verdict.failed, fcb)
]

-- The fragments in front of the first whose frag_len is at least `offset`, and the others.
unfoldable pub walk : ℕ → List Fragment → List Fragment × List Fragment
walk offset [] = ([], [])
walk offset (f ∷ fs) =
    let rest = walk offset fs in
    if leb offset f.frag_len then ([], f ∷ fs) else (f ∷ rest.0, rest.1)

-- `prev->frag_offset < offset` for the tail, or no tail.
unfoldable pub after_tail : List Fragment → ℕ → Bool
after_tail [] offset = true
after_tail (f ∷ []) offset = ltb f.frag_offset offset
after_tail (f ∷ g ∷ gs) offset = after_tail (g ∷ gs) offset

-- Where the fragment goes: what is before it, and what is behind.
unfoldable pub place : ℕ → List Fragment → List Fragment × List Fragment
place offset fs = if after_tail fs offset then (fs, []) else walk offset fs

-- The last of the fragments before must end at `offset` or earlier.
unfoldable pub clear_of_prev : List Fragment → ℕ → Bool
clear_of_prev [] offset = true
clear_of_prev (f ∷ []) offset = leb (f.frag_offset + f.frag_len) offset
clear_of_prev (f ∷ g ∷ gs) offset = clear_of_prev (g ∷ gs) offset

abbrev pub clear_of_next : List Fragment → ℕ → Bool
clear_of_next [] end = true
clear_of_next (f ∷ fs) end = leb end f.frag_offset

-- The tests on the end of the fragment, and the total length and the bit that they leave; `none` is the
-- way to `err` before anything was written.
unfoldable pub note_end : Fragment → Fcb → Option Fcb
note_end m fcb =
    let end = m.frag_offset + m.frag_len in
    if fcb.complete_in
    then none
    else if m.more
    then if leb end fcb.total_fraglen
      then some fcb
      else if fcb.last_in
      then none
      else some (record fcb { total_fraglen = end })
    else if ltb end fcb.total_fraglen || fcb.last_in
    then none
    else some (record fcb { last_in = true; total_fraglen = end })

-- From `found` on: the fragment between those before and those behind it.
unfoldable pub insert_fragment :
    (ℕ → Bool) → Fragment → Fcb → List Fragment × List Fragment → Verdict × Fcb
insert_fragment memory m fcb (before, behind) =
    let fcb' = record fcb {
      fragments = before ++ m ∷ behind;
      meat = fcb.meat + m.frag_len;
      first_in = m.frag_offset == 0 || fcb.first_in;
    } in
    if not (clear_of_prev before m.frag_offset)
    then (Verdict.dropped, fcb)
    else if not (clear_of_next behind (m.frag_offset + m.frag_len))
    then (Verdict.dropped, fcb)
    else if fcb'.first_in && fcb'.last_in && not fcb'.complete_in && fcb'.meat == fcb'.total_fraglen
    then frag_defrag_reasm memory fcb'
    else (Verdict.cached, fcb')

unfoldable pub frag_defrag_process : (ℕ → Bool) → Fragment → Fcb → Verdict × Fcb
frag_defrag_process memory m fcb = elim (note_end m fcb) [
  | none ↦ (Verdict.dropped, fcb)
  | some fcb' ↦ insert_fragment memory m fcb' (place m.frag_offset fcb'.fragments)
]
