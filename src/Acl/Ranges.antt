-- ===== src/Acl/Ranges.antt =====
-- ReadIPRange of dataplane/src/acl/acl.c: the addresses of a prefix.
use sec_fw.Common.{
  ℕ, zero, suc, ◌+◌, ◌-◌, ◌*◌, ◌/◌, ◌%◌, ◌^◌, ◌<◌, ◌≡◌, refl, ap, ◌∙◌, bit_and, bit_or, true, ◌==◌,
  ==_iff, ltb, if◌then◌else◌, List, [], ◌∷◌, get_or, set, holds_below, holds_below_sound, Option,
  none, some, arith,
}
use native.Mathlib.Nat.{add-mul-div_right, mul_assoc, mul_comm, add-mul, add_comm}

-- `for(i=3;i>3-masklit1;i--) ptrange[i] = v;`: `n` octets from the place `i` downwards.
unfoldable pub fill_octets : ℕ → ℕ → ℕ → List ℕ → List ℕ
fill_octets zero i v octets = octets
fill_octets (suc n) i v octets = fill_octets n (i - 1) v (set octets i v)

-- The number of four octets.
abbrev pub join_octets : List ℕ → ℕ
join_octets octets =
    ((get_or octets 0 0 * 256 + get_or octets 1 0) * 256 + get_or octets 2 0) * 256
    + get_or octets 3 0

abbrev pub split_octets : ℕ → List ℕ
split_octets ipnet = ipnet / 2 ^ 24 ∷ ipnet / 2 ^ 16 % 256 ∷ ipnet / 2 ^ 8 % 256 ∷ ipnet % 256 ∷ []

-- The octets that are filled whole, and the change of the next one, if there is one.
abbrev pub mask_octets : ℕ → ℕ → ℕ → (ℕ → ℕ) → List ℕ → List ℕ
mask_octets masklit1 masklit2 v change octets =
    let filled = fill_octets masklit1 3 v octets in
    if masklit2 == 0
    then filled
    else set filled (3 - masklit1) (change (get_or filled (3 - masklit1) 0))

-- ReadIPRange. `none` is a write before the array of the octets, for a mask of more than 32 bits.
unfoldable pub read_ip_range : ℕ → ℕ → Option (ℕ × ℕ)
read_ip_range ipnet ipmask =
    let mask = (32 + (2 ^ 32 - ipmask)) % 2 ^ 32 in
    let masklit1 = mask / 8 in
    let masklit2 = mask % 8 in
    let start_octets =
      mask_octets masklit1 masklit2 0 (λ x. bit_and x (2 ^ 32 - 1 - (2 ^ masklit2 - 1)))
        (split_octets ipnet) in
    let end_octets =
      mask_octets masklit1 masklit2 255 (λ x. bit_or x (2 ^ masklit2 - 1)) start_octets in
    if ltb 32 mask then none else some (join_octets start_octets, join_octets end_octets)

-- The low bits of an octet, cleared and set.
clear_table :
    holds_below
      (λ r. holds_below (λ x. bit_and x (2 ^ 32 - 1 - (2 ^ r - 1)) == x / 2 ^ r * 2 ^ r) 256)
      8
    ≡ true
unfolding holds_below
clear_table = refl

set_table :
    holds_below
      (λ r.
        holds_below
          (λ x. bit_or (x / 2 ^ r * 2 ^ r) (2 ^ r - 1) == x / 2 ^ r * 2 ^ r + (2 ^ r - 1))
          256)
      8
    ≡ true
unfolding holds_below
set_table = refl

pub clear_bits :
    (r x : ℕ) → r < 8 → x < 256 → bit_and x (2 ^ 32 - 1 - (2 ^ r - 1)) ≡ x / 2 ^ r * 2 ^ r
clear_bits r x a b =
    (==_iff _ _).0
      (holds_below_sound _ 256 x (holds_below_sound (λ s. holds_below _ 256) 8 r clear_table a) b)

pub set_bits :
    (r x : ℕ)
    → r < 8
    → x < 256
    → bit_or (x / 2 ^ r * 2 ^ r) (2 ^ r - 1) ≡ x / 2 ^ r * 2 ^ r + (2 ^ r - 1)
set_bits r x a b =
    (==_iff _ _).0
      (holds_below_sound _ 256 x (holds_below_sound (λ s. holds_below _ 256) 8 r set_table a) b)

-- The multiples of a part of 256 below a number, octet by octet.
round_octet : (y c p q : ℕ) → p * q ≡ 256 → 0 < p → (y * 256 + c) / p * p ≡ y * 256 + c / p * p
round_octet y c p q e h =
    let whole : (y * q) * p ≡ y * 256 = mul_assoc y q p ∙ ap (λ n. y * n) (mul_comm q p ∙ e) in
    let parts : y * 256 + c ≡ c + (y * q) * p = omega arith in
    ap (λ n. n / p * p) parts
    ∙ ap (λ n. n * p) (add-mul-div_right c (y * q) h)
    ∙ add-mul (c / p) (y * q) p
    ∙ ap (λ n. c / p * p + n) whole
    ∙ add_comm (c / p * p) (y * 256)

-- A power of two up to an octet divides 256.
part_table : holds_below (λ r. 2 ^ r * 2 ^ (8 - r) == 256) 8 ≡ true
unfolding holds_below
part_table = refl

positive_table : holds_below (λ r. ltb 0 (2 ^ r)) 8 ≡ true
unfolding holds_below
positive_table = refl

module _ (r : ℕ) (bits : r < 8) where
  pub positive_bits : 0 < 2 ^ r
  positive_bits =
      let e : ltb 0 (2 ^ r) ≡ true =
        holds_below_sound (λ n. ltb 0 (2 ^ n)) 8 r positive_table bits in
      ground arith

  pub round_bits : (y c : ℕ) → (y * 256 + c) / 2 ^ r * 2 ^ r ≡ y * 256 + c / 2 ^ r * 2 ^ r
  round_bits y c =
      let e =
        (==_iff _ _).0 (holds_below_sound (λ n. 2 ^ n * 2 ^ (8 - n) == 256) 8 r part_table bits) in
      round_octet y c (2 ^ r) (2 ^ (8 - r)) e positive_bits
