-- ===== src/Flow/Hash.antt =====
-- dataplane/src/flow/tluhash.h: the hash of a flow, on 32-bit words.
use sec_fw.Common.{ℕ, ◌+◌, ◌-◌, ◌*◌, ◌/◌, ◌%◌, ◌^◌, ◌≡◌, bit_xor, bit_xor_comm, ap}

-- `a - b` of two uint32_t
abbrev pub sub32 : ℕ → ℕ → ℕ
sub32 a b = (a + (2 ^ 32 - b)) % 2 ^ 32

-- `a << n` of a uint32_t
abbrev pub shl32 : ℕ → ℕ → ℕ
shl32 a n = a * 2 ^ n % 2 ^ 32

-- One group of three lines of TluHash, with its shifts.
abbrev mix : ℕ → ℕ → ℕ → ℕ × ℕ × ℕ → ℕ × ℕ × ℕ
mix i j k (a, b, c) =
    let a' = bit_xor (sub32 (sub32 a b) c) (c / 2 ^ i) in
    let b' = bit_xor (sub32 (sub32 b c) a') (shl32 a' j) in
    (a', b', bit_xor (sub32 (sub32 c a') b') (b' / 2 ^ k))

unfoldable pub tlu_hash : ℕ → ℕ → ℕ
tlu_hash u1 u2 =
    let a = (u2 + 0x9e3779b9) % 2 ^ 32 in
    let b = (u1 + 0x9e3779b9) % 2 ^ 32 in
    let (a', b', c) = mix 3 10 15 (mix 12 16 5 (mix 13 8 13 (a, b, 0))) in c

unfoldable pub flow_hashfn : ℕ → ℕ → ℕ → ℕ → ℕ → ℕ
flow_hashfn pro src_ip dst_ip src_port dst_port =
    bit_xor (bit_xor (tlu_hash src_ip src_port) (tlu_hash dst_ip dst_port)) (tlu_hash pro 0)

-- Both directions of a connection have one hash.
pub flow_hashfn_comm :
    (pro sip dip sport dport : ℕ)
    → flow_hashfn pro sip dip sport dport ≡ flow_hashfn pro dip sip dport sport
unfolding flow_hashfn
flow_hashfn_comm pro sip dip sport dport =
    ap (λ x. bit_xor x (tlu_hash pro 0)) (bit_xor_comm (tlu_hash sip sport) (tlu_hash dip dport))
