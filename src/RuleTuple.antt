-- ===== src/RuleTuple.antt =====
-- mgrplane/include/rpc-common.h: the packed record of one ACL rule, as the bytes that `memcmp` and
-- `memcpy` see, and the comparison of mgrplane/src/srv/srvnet/srv_rule.c. The Octeon is big-endian.
pub mod Laws
use sec_fw.Common.{
  ℕ, ◌+◌, ◌*◌, ◌/◌, ◌%◌, Bool, true, false, ltb, if◌then◌else◌, Ordering, List, [], ◌∷◌, ◌++◌,
  get_or,
}

-- `uint8_t mac[6]`
pub record Mac : Type 0 where
  pub b0 : ℕ
  pub b1 : ℕ
  pub b2 : ℕ
  pub b3 : ℕ
  pub b4 : ℕ
  pub b5 : ℕ

-- RCP_BLOCK_ACL_RULE_TUPLE
pub record RuleTuple : Type 0 where
  pub smac : Mac
  pub dmac : Mac
  pub sip : ℕ
  pub sip_mask : ℕ
  pub dip : ℕ
  pub dip_mask : ℕ
  pub sport_start : ℕ
  pub sport_end : ℕ
  pub dport_start : ℕ
  pub dport_end : ℕ
  pub protocol_start : ℕ
  pub protocol_end : ℕ
  pub action : ℕ

abbrev pub mac_bytes : Mac → List ℕ
mac_bytes m = m.b0 ∷ m.b1 ∷ m.b2 ∷ m.b3 ∷ m.b4 ∷ m.b5 ∷ []

abbrev pub bytes16 : ℕ → List ℕ
bytes16 n = (n / 256 % 256) ∷ (n % 256) ∷ []

abbrev pub bytes32 : ℕ → List ℕ
bytes32 n = (n / 16777216 % 256) ∷ (n / 65536 % 256) ∷ (n / 256 % 256) ∷ (n % 256) ∷ []

-- The 40 bytes of the packed record.
unfoldable pub tuple_bytes : RuleTuple → List ℕ
tuple_bytes r =
    mac_bytes r.smac
    ++ mac_bytes r.dmac
    ++ bytes32 r.sip
    ++ bytes32 r.sip_mask
    ++ bytes32 r.dip
    ++ bytes32 r.dip_mask
    ++ bytes16 r.sport_start
    ++ bytes16 r.sport_end
    ++ bytes16 r.dport_start
    ++ bytes16 r.dport_end
    ++ (r.protocol_start ∷ r.protocol_end ∷ bytes16 r.action)

-- The record that a pointer to the bytes reads, as in `(RCP_BLOCK_ACL_RULE_TUPLE *)(from + n)`.
abbrev pub read16 : List ℕ → ℕ → ℕ
read16 bs i = get_or bs i 0 * 256 + get_or bs (i + 1) 0

abbrev pub read32 : List ℕ → ℕ → ℕ
read32 bs i =
    get_or bs i 0 * 16777216
    + get_or bs (i + 1) 0 * 65536
    + get_or bs (i + 2) 0 * 256
    + get_or bs (i + 3) 0

abbrev pub read_mac : List ℕ → ℕ → Mac
read_mac bs i = record {
  b0 = get_or bs i 0;
  b1 = get_or bs (i + 1) 0;
  b2 = get_or bs (i + 2) 0;
  b3 = get_or bs (i + 3) 0;
  b4 = get_or bs (i + 4) 0;
  b5 = get_or bs (i + 5) 0;
}

unfoldable pub tuple_at : List ℕ → RuleTuple
tuple_at bs = record {
  smac = read_mac bs 0;
  dmac = read_mac bs 6;
  sip = read32 bs 12;
  sip_mask = read32 bs 16;
  dip = read32 bs 20;
  dip_mask = read32 bs 24;
  sport_start = read16 bs 28;
  sport_end = read16 bs 30;
  dport_start = read16 bs 32;
  dport_end = read16 bs 34;
  protocol_start = get_or bs 36 0;
  protocol_end = get_or bs 37 0;
  action = read16 bs 38;
}

-- The sign of `memcmp` over two blocks of one length.
unfoldable pub memcmp : List ℕ → List ℕ → Ordering
memcmp [] ys = Ordering.eq
memcmp (x ∷ xs) [] = Ordering.eq
memcmp (x ∷ xs) (y ∷ ys) =
    if ltb x y then Ordering.lt else if ltb y x then Ordering.gt else memcmp xs ys

unfoldable pub rule_compare : RuleTuple → RuleTuple → Ordering
unfolding tuple_bytes memcmp
rule_compare rule1 rule2 = memcmp (tuple_bytes rule1) (tuple_bytes rule2)

-- `0 == Rule_compare(a, b)`
abbrev pub is_zero : Ordering → Bool
is_zero Ordering.eq = true
is_zero Ordering.lt = false
is_zero Ordering.gt = false
