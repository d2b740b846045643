-- ===== src/Acl/Prefix.antt =====
-- What ReadIPRange answers: the octets of the first and of the last address of a prefix.
use sec_fw.Common.{
  ℕ, zero, suc, ◌+◌, ◌-◌, ◌*◌, ◌/◌, ◌%◌, ◌^◌, ◌≤◌, ◌<◌, ◌≡◌, refl, ap, ap₂, sym, ◌∙◌, inl, inr,
  bit_and, bit_or, true, false, Bool-cases, ◌==◌, ==_iff, ltb, if◌then◌else◌, List, [], ◌∷◌,
  holds_below, holds_below_sound, some, arith,
}
use native.Mathlib.Nat.{div-div-eq-div-mul, mul_assoc, mul_comm}
use sec_fw.Acl.Ranges.{
  fill_octets, join_octets, split_octets, mask_octets, read_ip_range, clear_bits, set_bits,
  positive_bits, round_bits,
}

-- The addresses of the prefix of an address whose last `k` bits are free.
abbrev pub prefix_range : ℕ → ℕ → ℕ × ℕ
prefix_range ipnet size = (ipnet / size * size, ipnet / size * size + (size - 1))

abbrev pub octet_range : List ℕ → ℕ → ℕ → ℕ × ℕ
octet_range octets q r =
    let start_octets = mask_octets q r 0 (λ x. bit_and x (2 ^ 32 - 1 - (2 ^ r - 1))) octets in
    let end_octets = mask_octets q r 255 (λ x. bit_or x (2 ^ r - 1)) start_octets in
    (join_octets start_octets, join_octets end_octets)

same_range : (m n m' n' : ℕ) → m ≡ m' → n ≡ n' → Path (ℕ × ℕ) (m, n) (m', n')
same_range m n m' n' = λ e f. ap₂ (λ x y. (x, y)) e f

-- The change of the octet that is split, between the octets before it and those after it.
start_octet : ℕ → ℕ → ℕ
start_octet r x = if r == 0 then x else bit_and x (2 ^ 32 - 1 - (2 ^ r - 1))

end_octet : ℕ → ℕ → ℕ
end_octet r x = if r == 0 then x else bit_or x (2 ^ r - 1)

split_range :
    (r : ℕ)
    → r < 8
    → (y c : ℕ) → c < 256
    → Path
        (ℕ × ℕ)
        (y * 256 + start_octet r c, y * 256 + end_octet r (start_octet r c))
        (prefix_range (y * 256 + c) (2 ^ r))
unfolding start_octet end_octet
split_range r h y c hc = elim (Bool-cases (r == 0)) [
  | inl e ↦
      let zero_bits : r ≡ 0 = (==_iff _ _).0 e in
      rw zero_bits (same_range _ _ _ _ (omega arith) (omega arith))
  | inr e ↦
      rw (e, clear_bits r c h hc, set_bits r c h hc, round_bits r h y c)
        (same_range _ _ _ _ refl (omega arith))
]

first_range :
    (r : ℕ)
    → r < 8
    → (a : ℕ) → a < 256
    → Path (ℕ × ℕ) (start_octet r a, end_octet r (start_octet r a)) (prefix_range a (2 ^ r))
first_range r h a ha =
    same_range _ _ (0 * 256 + start_octet r a) (0 * 256 + end_octet r (start_octet r a))
      (omega arith) (omega arith)
    ∙ split_range r h 0 a ha
    ∙ ap (λ n. prefix_range n (2 ^ r)) (omega arith)

-- A further octet that is free.
shift_range : ℕ × ℕ → ℕ × ℕ
shift_range p = (p.0 * 256 + 0, p.1 * 256 + 255)

shift_range-prefix_range :
    (y d size : ℕ)
    → d < 256
    → 0 < size
    → shift_range (prefix_range y size) ≡ prefix_range (y * 256 + d) (256 * size)
unfolding shift_range
shift_range-prefix_range y d size hd h =
    let whole : (y * 256 + d) / 256 ≡ y = omega arith in
    let start : (y * 256 + d) / (256 * size) * (256 * size) ≡ y / size * size * 256 =
      ap (λ n. n * (256 * size))
        (sym (div-div-eq-div-mul (y * 256 + d) 256 size) ∙ ap (λ n. n / size) whole)
      ∙ ap (λ n. y / size * n) (mul_comm 256 size)
      ∙ sym (mul_assoc (y / size) size 256) in
    same_range _ _ _ _ (omega arith) (omega arith)

module _ (r : ℕ) (h : r < 8) (a b c d : ℕ) (hb : b < 256) (hc : c < 256) (hd : d < 256) where
  abbrev octets : List ℕ
  octets = a ∷ b ∷ c ∷ d ∷ []

  range-0 : octet_range octets 0 r ≡ prefix_range (join_octets octets) (2 ^ r)
  unfolding fill_octets start_octet end_octet
  range-0 =
      elim (Bool-cases (r == 0)) [ inl e ↦ rw e refl | inr e ↦ rw e refl ]
      ∙ split_range r h ((a * 256 + b) * 256 + c) d hd

  range-1 : octet_range octets 1 r ≡ prefix_range (join_octets octets) (256 * 2 ^ r)
  unfolding fill_octets start_octet end_octet shift_range
  range-1 =
      elim (Bool-cases (r == 0)) [ inl e ↦ rw e refl | inr e ↦ rw e refl ]
      ∙ ap shift_range (split_range r h (a * 256 + b) c hc)
      ∙ shift_range-prefix_range ((a * 256 + b) * 256 + c) d (2 ^ r) hd (positive_bits r h)

  range-2 : octet_range octets 2 r ≡ prefix_range (join_octets octets) (256 * (256 * 2 ^ r))
  unfolding fill_octets start_octet end_octet shift_range
  range-2 =
      let p : 0 < 256 * 2 ^ r = let q = positive_bits r h in omega arith in
      elim (Bool-cases (r == 0)) [ inl e ↦ rw e refl | inr e ↦ rw e refl ]
      ∙ ap (λ n. shift_range (shift_range n)) (split_range r h a b hb)
      ∙ ap shift_range (shift_range-prefix_range (a * 256 + b) c (2 ^ r) hc (positive_bits r h))
      ∙ shift_range-prefix_range ((a * 256 + b) * 256 + c) d (256 * 2 ^ r) hd p

  range-3 :
      a < 256
      → octet_range octets 3 r ≡ prefix_range (join_octets octets) (256 * (256 * (256 * 2 ^ r)))
  unfolding fill_octets start_octet end_octet shift_range
  range-3 ha =
      let p : 0 < 256 * 2 ^ r = let q = positive_bits r h in omega arith in
      let p2 : 0 < 256 * (256 * 2 ^ r) = omega arith in
      elim (Bool-cases (r == 0)) [ inl e ↦ rw e refl | inr e ↦ rw e refl ]
      ∙ ap (λ n. shift_range (shift_range (shift_range n))) (first_range r h a ha)
      ∙ ap (λ n. shift_range (shift_range n))
          (shift_range-prefix_range a b (2 ^ r) hb (positive_bits r h))
      ∙ ap shift_range (shift_range-prefix_range (a * 256 + b) c (256 * 2 ^ r) hc p)
      ∙ shift_range-prefix_range ((a * 256 + b) * 256 + c) d (256 * (256 * 2 ^ r)) hd p2

  range-4 :
      a < 256
      → r ≡ 0
      → octet_range octets 4 r ≡ prefix_range (join_octets octets) (256 * (256 * (256 * 256)))
  unfolding fill_octets
  range-4 ha e = rw e (same_range _ _ _ _ (omega arith) (omega arith))

-- The size of a prefix, from its octets.
size_table : holds_below (λ q. holds_below (λ r. 2 ^ (q * 8 + r) == 256 ^ q * 2 ^ r) 8) 5 ≡ true
unfolding holds_below
size_table = refl

prefix_size : (q r : ℕ) → q < 5 → r < 8 → 256 ^ q * 2 ^ r ≡ 2 ^ (q * 8 + r)
prefix_size q r hq h = sym (
    (==_iff _ _).0 (
      holds_below_sound (λ s. _) 8 r
        (holds_below_sound (λ t. holds_below (λ s. 2 ^ (t * 8 + s) == 256 ^ t * 2 ^ s) 8) 5 q
          size_table hq)
        h))

octet_range-prefix_range :
    (q r ipnet : ℕ)
    → ipnet < 2 ^ 32
    → r < 8
    → q * 8 + r ≤ 32
    → octet_range (split_octets ipnet) q r ≡ prefix_range ipnet (2 ^ (q * 8 + r))
octet_range-prefix_range q r ipnet hn h hk =
    let a = ipnet / 2 ^ 24 in
    let b = ipnet / 2 ^ 16 % 256 in
    let c = ipnet / 2 ^ 8 % 256 in
    let d = ipnet % 256 in
    let ha : a < 256 = omega arith in
    let hb : b < 256 = omega arith in
    let hc : c < 256 = omega arith in
    let hd : d < 256 = omega arith in
    let joined : join_octets (split_octets ipnet) ≡ ipnet = omega arith in
    go q hk ha hb hc hd ∙ ap₂ prefix_range joined refl
  where
    go :
        (p : ℕ)
        → p * 8 + r ≤ 32
        → ipnet / 2 ^ 24 < 256
        → ipnet / 2 ^ 16 % 256 < 256
        → ipnet / 2 ^ 8 % 256 < 256
        → ipnet % 256 < 256
        → octet_range (split_octets ipnet) p r
          ≡ prefix_range (join_octets (split_octets ipnet)) (2 ^ (p * 8 + r))
    go zero l ha hb hc hd =
        range-0 r h _ _ _ _ hb hc hd
        ∙ ap₂ prefix_range refl (let e = prefix_size 0 r (omega arith) h in omega arith)
    go (suc zero) l ha hb hc hd =
        range-1 r h _ _ _ _ hb hc hd
        ∙ ap₂ prefix_range refl (let e = prefix_size 1 r (omega arith) h in omega arith)
    go (suc (suc zero)) l ha hb hc hd =
        range-2 r h _ _ _ _ hb hc hd
        ∙ ap₂ prefix_range refl (let e = prefix_size 2 r (omega arith) h in omega arith)
    go (suc (suc (suc zero))) l ha hb hc hd =
        range-3 r h _ _ _ _ hb hc hd ha
        ∙ ap₂ prefix_range refl (let e = prefix_size 3 r (omega arith) h in omega arith)
    go (suc (suc (suc (suc zero)))) l ha hb hc hd =
        range-4 r h _ _ _ _ hb hc hd ha (omega arith)
        ∙ ap₂ prefix_range refl
            (let e = prefix_size 4 r (omega arith) h in let z : r ≡ 0 = omega arith in rw z refl)
    go (suc (suc (suc (suc (suc p))))) l ha hb hc hd = absurd (omega arith)

-- ReadIPRange gives the first and the last address of the prefix: for an address of 32 bits and a mask of at
-- most 32 bits, the multiple of 2^(32 - mask) at or below the address, and the last address before the
-- next multiple.
pub read_ip_range-prefix :
    (ipnet ipmask : ℕ)
    → ipnet < 2 ^ 32
    → ipmask ≤ 32
    → read_ip_range ipnet ipmask
      ≡ some (
        ipnet / 2 ^ (32 - ipmask) * 2 ^ (32 - ipmask),
        ipnet / 2 ^ (32 - ipmask) * 2 ^ (32 - ipmask) + (2 ^ (32 - ipmask) - 1),
      )
unfolding read_ip_range
read_ip_range-prefix ipnet ipmask hn hm =
    let k = 32 - ipmask in
    let wrapped : (32 + (2 ^ 32 - ipmask)) % 2 ^ 32 ≡ k = omega arith in
    let fits : ltb 32 k ≡ false = ground arith in
    let parts : k / 8 * 8 + k % 8 ≡ k = omega arith in
    rw (wrapped, fits)
      (ap some (
        octet_range-prefix_range (k / 8) (k % 8) ipnet hn (omega arith) (omega arith)
        ∙ ap (λ n. prefix_range ipnet (2 ^ n)) parts))
