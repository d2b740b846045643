-- ===== src/Acl/Distinct.antt =====
-- How many different numbers a list has.
use sec_fw.Common.{
  ℕ, suc, ◌≤◌, ◌<◌, ◌≡◌, ◌≢◌, refl, ap, sym, ◌∙◌, ◌⊎◌, inl, inr, true, false, Bool-cases, ◌==◌,
  ==_self, ==_iff, if◌then◌else◌, List, [], ◌∷◌, length, arith,
}
use sec_fw.Acl.Marks.{has}
use sec_fw.Acl.Middle.{or_true}

unfoldable pub distinct : List ℕ → ℕ
distinct [] = 0
distinct (x ∷ xs) = let rest = distinct xs in if has x xs then rest else suc rest

remove : ℕ → List ℕ → List ℕ
remove z [] = []
remove z (x ∷ xs) = let rest = remove z xs in if x == z then rest else x ∷ rest

has-remove : (y z : ℕ) (xs : List ℕ) → y ≢ z → has y (remove z xs) ≡ has y xs
unfolding has remove
has-remove y z [] n = refl
has-remove y z (x ∷ xs) n = ground (arith, has-remove y z xs n)

distinct-remove_out :
    (z : ℕ) (xs : List ℕ) → has z xs ≡ false → distinct (remove z xs) ≡ distinct xs
unfolding has remove distinct
distinct-remove_out z [] h = refl
distinct-remove_out z (x ∷ xs) h = elim (Bool-cases (x == z)) [
  | inl e ↦ absurd (ground arith)
  | inr e ↦
      rw (e, has-remove x z xs (λ k. ground arith), distinct-remove_out z xs (ground arith)) refl
]

distinct-remove :
    (z : ℕ) (xs : List ℕ) → has z xs ≡ true → distinct xs ≡ suc (distinct (remove z xs))
unfolding has remove distinct
distinct-remove z [] h = cc h
distinct-remove z (x ∷ xs) h = elim (Bool-cases (x == z)) [
  | inl e ↦
      let same : x ≡ z = (==_iff x z).0 e in
      elim (Bool-cases (has z xs)) [
        | inl k ↦ rw (e, same, k) (distinct-remove z xs k)
        | inr k ↦ rw (e, same, k) (ap suc (sym (distinct-remove_out z xs k)))
      ]
  | inr e ↦
      let there = distinct-remove z xs (ground arith) in
      rw (e, has-remove x z xs (λ k. ground arith)) (ground (arith, there))
]

-- All numbers of one list are in another.
abbrev pub Within : List ℕ → List ℕ → Type 0
Within xs ys = (x : ℕ) → has x xs ≡ true → has x ys ≡ true

pub Within-distinct : (xs ys : List ℕ) → Within xs ys → distinct xs ≤ distinct ys
unfolding has distinct
Within-distinct [] ys w = omega arith
Within-distinct (x ∷ xs) ys w = elim (Bool-cases (has x xs)) [
  | inl e ↦ rw e (Within-distinct xs ys (λ y k. w y (rw k (or_true _))))
  | inr e ↦
      let rest = Within-distinct xs (remove x ys) (λ y k.
        has-remove y x ys (λ s. ground (arith, e, k, ap (λ z. has z xs) s))
        ∙ w y (rw k (or_true _))) in
      rw e (omega (arith, rest, distinct-remove x ys (w x (rw (==_self x) refl))))
]

-- A number of the second list that the first has not, makes it longer.
pub Within-distinct_lt :
    (z : ℕ) (xs ys : List ℕ)
    → Within xs ys
    → has z ys ≡ true
    → has z xs ≡ false
    → distinct xs < distinct ys
Within-distinct_lt z xs ys w inside outside =
    let rest =
      Within-distinct xs (remove z ys) (λ y k.
        has-remove y z ys (λ s. ground (arith, outside, k, ap (λ a. has a xs) s)) ∙ w y k) in
    omega (arith, rest, distinct-remove z ys inside)

-- One new number in exchange for one that is gone.
pub exchange-distinct :
    (z w : ℕ) (xs ys : List ℕ)
    → ((x : ℕ) → has x xs ≡ true → (x ≡ w) ⊎ ((has x ys ≡ true) × (x ≢ z)))
    → has z ys ≡ true
    → distinct xs ≤ distinct ys
unfolding has distinct
exchange-distinct z w xs ys from inside =
    let rest = Within-distinct xs (w ∷ remove z ys) (λ y k. elim (from y k) [
      | inl e ↦ rw e (rw (==_self w) refl)
      | inr (a, n) ↦ rw (has-remove y z ys n, a) (or_true _)
    ]) in
    let short : distinct (w ∷ remove z ys) ≤ suc (distinct (remove z ys)) =
      elim (Bool-cases (has w (remove z ys))) [
        | inl e ↦ rw e (omega arith)
        | inr e ↦ rw e (omega arith)
      ] in
    omega (arith, rest, short, distinct-remove z ys inside)

pub distinct-length : (xs : List ℕ) → distinct xs ≤ length xs
unfolding distinct
distinct-length [] = omega arith
distinct-length (x ∷ xs) = ground (arith, distinct-length xs)
