-- ===== src/Message/Blocks.antt =====
-- The data blocks of message.c: how long a message is, and what a reader finds in it.
use sec_fw.Common.{
  ℕ, zero, suc, ◌*◌, ◌≡◌, refl, ap, ◌∙◌, List, [], ◌∷◌, arith, length, get_or, length-append,
}
use sec_fw.RuleTuple.{RuleTuple, tuple_bytes}
use sec_fw.Message.Pack.{RcpMsgParams, copy, pack_blocks, zero_params}

pub length-copy : (mem : List ℕ) (off n : ℕ) → length (copy mem off n) ≡ n
unfolding copy
length-copy mem off zero = refl
length-copy mem off (suc n) = ap suc (length-copy mem (suc off) n)

pub length-pack_blocks :
    (n i : ℕ) (mem : List ℕ) (block_length : ℕ)
    → length (pack_blocks n i mem block_length) ≡ n * block_length
unfolding pack_blocks
length-pack_blocks zero i mem block_length = omega arith
length-pack_blocks (suc n) i mem block_length =
    length-append (copy mem (40 * i) block_length) (pack_blocks n (suc i) mem block_length)
    ∙ omega (
      arith,
      length-copy mem (40 * i) block_length,
      length-pack_blocks n (suc i) mem block_length,
    )

-- `copy` of a list from its start, and from further on.
copy-drop : (x : ℕ) (mem : List ℕ) (off n : ℕ) → copy (x ∷ mem) (suc off) n ≡ copy mem off n
unfolding copy
copy-drop x mem off zero = refl
copy-drop x mem off (suc n) = ap (λ l. get_or mem off 0 ∷ l) (copy-drop x mem (suc off) n)

pub copy_self : (mem : List ℕ) → copy mem 0 (length mem) ≡ mem
unfolding copy
copy_self [] = refl
copy_self (x ∷ mem) = ap (λ l. x ∷ l) (copy-drop x mem 0 (length mem) ∙ copy_self mem)

-- The parameters that the command line fills in for one rule.
abbrev pub rule_params : ℕ → RuleTuple → RcpMsgParams
rule_params id r = record zero_params { msg_id = id; nparam = 1; params_list = tuple_bytes r }
