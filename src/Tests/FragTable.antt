-- ===== src/Tests/FragTable.antt =====
-- Runs of the table of fragments.
use sec_fw.Common.{ℕ, ◌+◌, ◌≡◌, ◌≢◌, refl, true, false, [], none}
use sec_fw.Defrag.{frag_defrag_process, note_end, insert_fragment, place, after_tail, clear_of_prev}
use sec_fw.Defrag.Table.{
  DatagramId, FragTable, ip4_frag_hashfn, ip4_frag_match, frag_find, write_item, Reply, Supply,
  find_or_create, frag_defrag_begin, defrag_bucket, defrag, timed_out, keep_items,
  frag_defrag_timeout,
}
use sec_fw.Defrag.Blocks.{block_of, defrag_block, defrag-block}
use sec_fw.Defrag.Ageing.{frag_module_init, fragment_in, unless_timed_out, frag_defrag_timeout-find}
use sec_fw.Tests.Fragments.{fragment, always}

abbrev sum_hash : ℕ → ℕ → ℕ → ℕ → ℕ
sum_hash a b c d = a + b + c + d

abbrev plenty : Supply
plenty = record { block = true; packet = true; whole = always }

abbrev nothing : Supply
nothing = record { block = false; packet = false; whole = λ n. false }

abbrev here : DatagramId
here = record { sip = 10; dip = 20; id = 7 }

-- Another datagram in the same bucket.
abbrev there : DatagramId
there = record { sip = 20; dip = 10; id = 7 }

abbrev start : FragTable
start i = []

abbrev one_waiting : FragTable
one_waiting = (defrag sum_hash plenty 100 here (fragment 0 true) start).1

block_example :
    ((defrag sum_hash plenty 200 there (fragment 0 true) one_waiting).0
      ≡ (defrag_block plenty (fragment 0 true) (block_of sum_hash one_waiting there)).0)
    × (block_of sum_hash (defrag sum_hash plenty 200 there (fragment 0 true) one_waiting).1 there
        ≡ (defrag_block plenty (fragment 0 true) (block_of sum_hash one_waiting there)).1)
    × ((d' : DatagramId)
        → there ≢ d'
        → block_of sum_hash (defrag sum_hash plenty 200 there (fragment 0 true) one_waiting).1 d'
          ≡ block_of sum_hash one_waiting d')
block_example = defrag-block sum_hash plenty 200 there (fragment 0 true) one_waiting

timer_example :
    frag_find
      (frag_defrag_timeout 10 400 (λ i. false) one_waiting (ip4_frag_hashfn sum_hash here))
      here
    ≡ unless_timed_out 10 400 (frag_find (one_waiting (ip4_frag_hashfn sum_hash here)) here)
timer_example =
    frag_defrag_timeout-find sum_hash one_waiting 10 400 (λ i. false) here
      (fragment_in plenty 100 here (fragment 0 true) frag_module_init)

no_memory : (defrag sum_hash nothing 100 here (fragment 0 true) start).0 ≡ Reply.fcb_no
unfolding defrag defrag_bucket find_or_create frag_find
no_memory = refl

-- After 300 cycles, with 20 seconds of 10 cycles, the block is gone.
too_old : frag_find (frag_defrag_timeout 10 400 (λ i. false) one_waiting 37) here ≡ none
unfolding frag_defrag_timeout keep_items timed_out defrag defrag_bucket find_or_create frag_find
    frag_defrag_begin write_item ip4_frag_match frag_defrag_process note_end insert_fragment place
    after_tail clear_of_prev
too_old = refl
