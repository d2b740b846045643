-- ===== src/Decode/Disposal.antt =====
-- Every packet that comes in is given away exactly once.
use sec_fw.Common.{ℕ, ◌≡◌, true, Option, none, some}
use sec_fw.Mbuf.{Mbuf}
use sec_fw.Decode.{Stat}
use sec_fw.Decode.Layers.{Outcome, DefragAnswer, null_read, kept, unmade, freed, whole}
use sec_fw.Decode.Settled.{settled, CachedAre}

record Settles (P : Mbuf → Type 0) (r : Option Outcome) : Type 0 where
  outcome : Outcome
  done : r ≡ some outcome
  is_settled : settled outcome ≡ true
  truly : CachedAre P outcome.events

-- What a fragment with a network header gets as an answer: no read through NULL, and a whole packet has a network
-- header too.
abbrev IsAnswer : DefragAnswer → Type 0
IsAnswer null_read = ⊥
IsAnswer kept = Unit
IsAnswer unmade = Unit
IsAnswer (freed stat) = Unit
IsAnswer (whole mem n) = (h : ℕ) × (n.network_header ≡ some h)

-- A packet whose IPv4 header was accepted has it as its network header.
abbrev HasHeader : Option Stat × Mbuf → Type 0
HasHeader (some err, m) = Unit
HasHeader (none, m) = (h : ℕ) × (m.network_header ≡ some h)
