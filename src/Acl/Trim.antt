-- ===== src/Acl/Trim.antt =====
-- The rules that match a packet are the same in a set of rules and in the child that the packet goes to.
use sec_fw.Common.{
  ℕ, zero, suc, ◌+◌, ◌≤◌, ◌<◌, ◌≡◌, refl, ap, inl, inr, true, Bool-cases, ◌==◌, if◌then◌else◌, List,
  [], ◌∷◌, arith,
}
use sec_fw.Acl.{Rule, low_words, dim_max, matched_from, matched}
use sec_fw.Acl.Build.{reaches, trimmed, child_rules}

-- The rules of a set that match a packet, by their place in the set.
unfoldable pub matching : List Rule → (ℕ → ℕ) → List ℕ
matching [] packet = []
matching (r ∷ rs) packet =
    let rest = matching rs packet in if matched r packet then r.pri ∷ rest else rest

module _ (d2s lo hi : ℕ) (r : Rule) (packet : ℕ → ℕ) where
  matched_from-trimmed :
      (n dim : ℕ)
      → lo ≤ low_words d2s (packet d2s)
      → low_words d2s (packet d2s) ≤ hi
      → matched_from n dim (trimmed d2s lo hi r) packet ≡ matched_from n dim r packet
  unfolding matched_from
  matched_from-trimmed zero dim l h = refl
  matched_from-trimmed (suc n) dim l h = elim (Bool-cases (dim == d2s)) [
    | inl e ↦
        let same : d2s ≡ dim = ground arith in
        ground (
          arith,
          matched_from-trimmed n (suc dim) l h,
          ap (λ i. low_words i (packet i)) same,
          ap r.range0 same,
          ap r.range1 same,
        )
    | inr e ↦ ground (arith, matched_from-trimmed n (suc dim) l h)
  ]

  matched_from-reaches :
      (n dim : ℕ)
      → dim ≤ d2s
      → d2s < dim + n
      → lo ≤ low_words d2s (packet d2s)
      → low_words d2s (packet d2s) ≤ hi
      → matched_from n dim r packet ≡ true
      → reaches d2s lo hi r ≡ true
  unfolding matched_from
  matched_from-reaches zero dim a b l h e = absurd (omega arith)
  matched_from-reaches (suc n) dim a b l h e = elim (Bool-cases (dim == d2s)) [
    | inl k ↦
        let same : d2s ≡ dim = ground arith in
        ground (arith, ap (λ i. low_words i (packet i)) same, ap r.range0 same, ap r.range1 same)
    | inr k ↦ ground (arith, matched_from-reaches n (suc dim))
  ]

pub matching-child_rules :
    (d2s lo hi : ℕ) (packet : ℕ → ℕ)
    → d2s < dim_max
    → lo ≤ low_words d2s (packet d2s)
    → low_words d2s (packet d2s) ≤ hi
    → (rules : List Rule) → matching (child_rules d2s lo hi rules) packet ≡ matching rules packet
unfolding matching child_rules
matching-child_rules d2s lo hi packet d l h [] = refl
matching-child_rules d2s lo hi packet d l h (r ∷ rs) =
    let ih = matching-child_rules d2s lo hi packet d l h rs in
    let same = matched_from-trimmed d2s lo hi r packet dim_max 0 l h in
    elim (Bool-cases (reaches d2s lo hi r)) [
      | inl e ↦ rw e (rw same (rw ih refl))
      | inr e ↦ elim (Bool-cases (matched r packet)) [
        | inl m ↦ absurd (
            cc
              (matched_from-reaches d2s lo hi r packet dim_max 0 (omega arith) (omega arith) l h m))
        | inr m ↦ rw (e, m) ih
      ]
    ]
