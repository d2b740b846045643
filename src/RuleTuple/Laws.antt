-- ===== src/RuleTuple/Laws.antt =====
-- The comparison of two rules answers 0 exactly when the rules are the same.
use sec_fw.Common.{
  ℕ, ◌+◌, ◌*◌, ◌/◌, ◌%◌, ◌^◌, ◌<◌, ◌≡◌, refl, sym, ap, ◌∙◌, subst, ◌↔◌, true, Ordering, List, [],
  ◌∷◌, ◌++◌, arith, length,
}
use sec_fw.RuleTuple.{RuleTuple, tuple_bytes, tuple_at, memcmp, rule_compare, is_zero}

pub memcmp-eq : (xs ys : List ℕ) → length xs ≡ length ys → memcmp xs ys ≡ Ordering.eq → xs ≡ ys
unfolding memcmp
memcmp-eq [] [] l h = refl
memcmp-eq [] (y ∷ ys) l h = absurd (omega arith)
memcmp-eq (x ∷ xs) [] l h = absurd (omega arith)
memcmp-eq (x ∷ xs) (y ∷ ys) l h = ground (arith, memcmp-eq xs ys)

pub memcmp_refl : (xs : List ℕ) → memcmp xs xs ≡ Ordering.eq
unfolding memcmp
memcmp_refl [] = refl
memcmp_refl (x ∷ xs) = ground (arith, memcmp_refl xs)

-- Each field holds a value of its C type.
pub record IsTuple (r : RuleTuple) : Type 0 where
  pub sip_range : r.sip < 2 ^ 32
  pub sip_mask_range : r.sip_mask < 2 ^ 32
  pub dip_range : r.dip < 2 ^ 32
  pub dip_mask_range : r.dip_mask < 2 ^ 32
  pub sport_start_range : r.sport_start < 2 ^ 16
  pub sport_end_range : r.sport_end < 2 ^ 16
  pub dport_start_range : r.dport_start < 2 ^ 16
  pub dport_end_range : r.dport_end < 2 ^ 16
  pub protocol_start_range : r.protocol_start < 2 ^ 8
  pub protocol_end_range : r.protocol_end < 2 ^ 8
  pub action_range : r.action < 2 ^ 16

pub read16-bytes16 : (n : ℕ) → n < 2 ^ 16 → n / 256 % 256 * 256 + n % 256 ≡ n
read16-bytes16 n h = omega arith

pub read32-bytes32 :
    (n : ℕ)
    → n < 2 ^ 32
    → n / 16777216 % 256 * 16777216 + n / 65536 % 256 * 65536 + n / 256 % 256 * 256 + n % 256 ≡ n
read32-bytes32 n h = omega arith

-- Reading a rule out of the bytes that were written for it gives the rule back.
pub tuple_at-tuple_bytes :
    (r : RuleTuple) (rest : List ℕ) → IsTuple r → tuple_at (tuple_bytes r ++ rest) ≡ r
unfolding tuple_at tuple_bytes
tuple_at-tuple_bytes r rest h = λ i. record {
  smac = r.smac;
  dmac = r.dmac;
  sip = read32-bytes32 r.sip h.sip_range i;
  sip_mask = read32-bytes32 r.sip_mask h.sip_mask_range i;
  dip = read32-bytes32 r.dip h.dip_range i;
  dip_mask = read32-bytes32 r.dip_mask h.dip_mask_range i;
  sport_start = read16-bytes16 r.sport_start h.sport_start_range i;
  sport_end = read16-bytes16 r.sport_end h.sport_end_range i;
  dport_start = read16-bytes16 r.dport_start h.dport_start_range i;
  dport_end = read16-bytes16 r.dport_end h.dport_end_range i;
  protocol_start = r.protocol_start;
  protocol_end = r.protocol_end;
  action = read16-bytes16 r.action h.action_range i;
}

pub tuple_bytes-inj :
    (a b : RuleTuple) → IsTuple a → IsTuple b → tuple_bytes a ≡ tuple_bytes b → a ≡ b
tuple_bytes-inj a b ha hb e =
    sym (tuple_at-tuple_bytes a [] ha)
    ∙ ap (λ bs. tuple_at (bs ++ [])) e
    ∙ tuple_at-tuple_bytes b [] hb

pub length-tuple_bytes : (r : RuleTuple) → length (tuple_bytes r) ≡ 40
unfolding tuple_bytes
length-tuple_bytes r = refl

-- Rule_compare answers 0 exactly for equal rules, when every field is within its C type.
pub rule_compare_iff :
    (a b : RuleTuple) → IsTuple a → IsTuple b → (rule_compare a b ≡ Ordering.eq) ↔ (a ≡ b)
unfolding rule_compare
rule_compare_iff a b ha hb = (
  λ h.
      tuple_bytes-inj a b ha hb
        (memcmp-eq _ _ (length-tuple_bytes a ∙ sym (length-tuple_bytes b)) h),
  λ e.
      subst (λ c. memcmp (tuple_bytes a) (tuple_bytes c) ≡ Ordering.eq) e
        (memcmp_refl (tuple_bytes a)),
)

is_zero→eq : (o : Ordering) → is_zero o ≡ true → o ≡ Ordering.eq
is_zero→eq Ordering.eq h = refl
is_zero→eq Ordering.lt h = cc
is_zero→eq Ordering.gt h = cc

bytes_eq : (a b : RuleTuple) → is_zero (rule_compare a b) ≡ true → tuple_bytes a ≡ tuple_bytes b
unfolding rule_compare
bytes_eq a b h = memcmp-eq _ _ (length-tuple_bytes a ∙ sym (length-tuple_bytes b)) (is_zero→eq _ h)

pub rule_compare_refl : (a : RuleTuple) → is_zero (rule_compare a a) ≡ true
unfolding rule_compare
rule_compare_refl a = rw (memcmp_refl (tuple_bytes a))

-- Rules that compare equal compare alike with every rule, on either side.
pub rule_compare_congr_left :
    (a b c : RuleTuple) → is_zero (rule_compare a b) ≡ true → rule_compare a c ≡ rule_compare b c
unfolding rule_compare
rule_compare_congr_left a b c h = ap (λ bs. memcmp bs (tuple_bytes c)) (bytes_eq a b h)

pub rule_compare_congr_right :
    (a b c : RuleTuple) → is_zero (rule_compare b c) ≡ true → rule_compare a b ≡ rule_compare a c
unfolding rule_compare
rule_compare_congr_right a b c h = ap (λ bs. memcmp (tuple_bytes a) bs) (bytes_eq b c h)

rule_compare_symm_true :
    (a b : RuleTuple) → is_zero (rule_compare a b) ≡ true → is_zero (rule_compare b a) ≡ true
rule_compare_symm_true a b h = rw (rule_compare_congr_left a b a h) at (rule_compare_refl a)

pub rule_compare_symm : (a b : RuleTuple) → is_zero (rule_compare a b) ≡ is_zero (rule_compare b a)
rule_compare_symm a b = ground (arith, rule_compare_symm_true a b, rule_compare_symm_true b a)
