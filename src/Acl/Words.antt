-- ===== src/Acl/Words.antt =====
-- The arithmetic of acl.c on arrays of 32-bit words, the highest word first, is that of the numbers which
-- the arrays stand for.
use sec_fw.Common.{
  ℕ, zero, suc, ◌+◌, ◌-◌, ◌*◌, ◌%◌, ◌^◌, ◌≤◌, ◌<◌, ◌≡◌, refl, ap, ap₂, inl, inr, Bool, true, false,
  Bool-cases, ◌==◌, ==_iff, ltb, if◌then◌else◌, List, [], ◌∷◌, ◌++◌, All, length, replicate,
  length-append, length-replicate, Ordering, arith,
}

-- SegPointCompare_64_128 and its kin: the loop over the words of both arrays; -1, 0 and 1 are `lt`, `eq` and `gt`.
unfoldable pub seg_point_compare : List ℕ → List ℕ → Ordering
seg_point_compare (a ∷ as') (b ∷ bs) =
    let rest = seg_point_compare as' bs in
    if ltb a b then Ordering.lt else if a == b then rest else Ordering.gt
seg_point_compare _ _ = Ordering.eq

-- Add, from the last word on: the words, and whether all of them came to 0, in which case it returns 0.
unfoldable pub add_words : List ℕ → List ℕ × Bool
add_words [] = ([], true)
add_words (w ∷ ws) =
    let rest = add_words ws in
    if rest.1 then ((w + 1) % 2 ^ 32 ∷ rest.0, (w + 1) % 2 ^ 32 == 0) else (w ∷ rest.0, false)

-- Subtract, from the last word on: the words, and whether all of them were 0.
unfoldable pub subtract_words : List ℕ → List ℕ × Bool
subtract_words [] = ([], true)
subtract_words (w ∷ ws) =
    let rest = subtract_words ws in
    if rest.1 then ((w + (2 ^ 32 - 1)) % 2 ^ 32 ∷ rest.0, w == 0) else (w ∷ rest.0, false)

-- Assign_DiffBits to an array of `d_words` words: zeros before the words of the source.
unfoldable pub assign_diffbits : ℕ → List ℕ → List ℕ
assign_diffbits d_words source = replicate (d_words - length source) 0 ++ source

-- The number that an array stands for, and the first number that has no array of its length.
unfoldable pub beyond : List ℕ → ℕ
beyond [] = 1
beyond (w ∷ ws) = 2 ^ 32 * beyond ws

unfoldable pub value : List ℕ → ℕ
value [] = 0
value (w ∷ ws) = w * beyond ws + value ws

abbrev pub AreWords : List ℕ → Type 0
AreWords ws = All (λ w. w < 2 ^ 32) ws

value-lt-beyond : (ws : List ℕ) → AreWords ws → value ws < beyond ws
unfolding value beyond
value-lt-beyond [] a = omega arith
value-lt-beyond (w ∷ ws) (h, a) = grind (arith, value-lt-beyond ws a)

length-beyond : (as' bs : List ℕ) → length as' ≡ length bs → beyond as' ≡ beyond bs
unfolding beyond
length-beyond [] [] h = refl
length-beyond [] (b ∷ bs) h = absurd (omega arith)
length-beyond (a ∷ as') [] h = absurd (omega arith)
length-beyond (a ∷ as') (b ∷ bs) h = omega (arith, length-beyond as' bs (omega arith))

-- How two numbers compare.
abbrev pub Compares : ℕ → ℕ → Ordering → Type 0
Compares x y Ordering.lt = x < y
Compares x y Ordering.eq = x ≡ y
Compares x y Ordering.gt = y < x

Compares-add : (x y m n : ℕ) (o : Ordering) → x ≡ y → Compares m n o → Compares (x + m) (y + n) o
Compares-add x y m n Ordering.lt e c = omega arith
Compares-add x y m n Ordering.eq e c = omega arith
Compares-add x y m n Ordering.gt e c = omega arith

lt_scaled : (a b p : ℕ) → a < b → a * p + p ≤ b * p
lt_scaled a b p h = grind arith

compare-Compares :
    (as' bs : List ℕ)
    → length as' ≡ length bs
    → AreWords as'
    → AreWords bs
    → Compares (value as') (value bs) (seg_point_compare as' bs)
unfolding seg_point_compare value
compare-Compares [] [] h a b = refl
compare-Compares [] (b ∷ bs) h wa wb = absurd (omega arith)
compare-Compares (a ∷ as') [] h wa wb = absurd (omega arith)
compare-Compares (a ∷ as') (b ∷ bs) h (ha, wa) (hb, wb) =
    let same = length-beyond as' bs (omega arith) in
    let ih = compare-Compares as' bs (omega arith) wa wb in
    elim (Bool-cases (ltb a b)) [
      | inl e ↦
          rw (e, same)
            (omega (arith, lt_scaled a b (beyond bs) (ground arith), value-lt-beyond as' wa, same))
      | inr e ↦ elim (Bool-cases (a == b)) [
        | inl k ↦
            rw (e, k)
              (Compares-add (a * beyond as') (b * beyond bs) (value as') (value bs)
                (seg_point_compare as' bs) (ap₂ (λ x y. x * y) ((==_iff a b).0 k) same) ih)
        | inr k ↦
            rw (e, k, same)
              (omega (arith, lt_scaled b a (beyond bs) (ground arith), value-lt-beyond bs wb))
      ]
    ]

length-add_words : (ws : List ℕ) → length (add_words ws).0 ≡ length ws
unfolding add_words
length-add_words [] = refl
length-add_words (w ∷ ws) = elim (Bool-cases (add_words ws).1) [
  | inl e ↦ rw e (ap suc (length-add_words ws))
  | inr e ↦ rw e (ap suc (length-add_words ws))
]

length-subtract_words : (ws : List ℕ) → length (subtract_words ws).0 ≡ length ws
unfolding subtract_words
length-subtract_words [] = refl
length-subtract_words (w ∷ ws) = elim (Bool-cases (subtract_words ws).1) [
  | inl e ↦ rw e (ap suc (length-subtract_words ws))
  | inr e ↦ rw e (ap suc (length-subtract_words ws))
]

-- One unit of the highest word.
times_suc : (w p : ℕ) → (w + 1) * p ≡ w * p + p
times_suc w p = grind arith

add-value :
    (ws : List ℕ)
    → AreWords ws
    → value (add_words ws).0 + (if (add_words ws).1 then beyond ws else 0) ≡ value ws + 1
unfolding add_words value beyond
add-value [] a = refl
add-value (w ∷ ws) (h, a) =
    let ih = add-value ws a in
    let same = length-beyond (add_words ws).0 ws (length-add_words ws) in
    elim (Bool-cases (add_words ws).1) [
      | inl e ↦
          let carried : value (add_words ws).0 + beyond ws ≡ value ws + 1 = rw e at ih in
          elim (Bool-cases ((w + 1) % 2 ^ 32 == 0)) [
            | inl k ↦
                let last : w ≡ 2 ^ 32 - 1 = ground arith in
                rw (e, k, same, last) (omega (arith, carried))
            | inr k ↦
                let whole : (w + 1) % 2 ^ 32 ≡ w + 1 = ground arith in
                rw (e, k, whole, same) (omega (arith, carried, times_suc w (beyond ws)))
          ]
      | inr e ↦
          let plain : value (add_words ws).0 + 0 ≡ value ws + 1 = rw e at ih in
          rw (e, same) (omega arith)
    ]

subtract-value :
    (ws : List ℕ)
    → AreWords ws
    → value (subtract_words ws).0 + 1 ≡ value ws + (if (subtract_words ws).1 then beyond ws else 0)
unfolding subtract_words value beyond
subtract-value [] a = refl
subtract-value (w ∷ ws) (h, a) =
    let ih = subtract-value ws a in
    let same = length-beyond (subtract_words ws).0 ws (length-subtract_words ws) in
    elim (Bool-cases (subtract_words ws).1) [
      | inl e ↦
          let borrowed : value (subtract_words ws).0 + 1 ≡ value ws + beyond ws = rw e at ih in
          elim (Bool-cases (w == 0)) [
            | inl k ↦
                let none_left : w ≡ 0 = ground arith in
                rw (e, k, none_left, same) (omega (arith, borrowed))
            | inr k ↦
                let less : (w + (2 ^ 32 - 1)) % 2 ^ 32 ≡ w - 1 = ground arith in
                let some_left : w ≡ (w - 1) + 1 = ground arith in
                rw (e, k, less, same)
                  (omega (
                    arith,
                    borrowed,
                    times_suc (w - 1) (beyond ws),
                    ap (λ n. n * beyond ws) some_left,
                  ))
          ]
      | inr e ↦
          let plain : value (subtract_words ws).0 + 1 ≡ value ws + 0 = rw e at ih in
          rw (e, same) (omega arith)
    ]

value-zeros : (n : ℕ) (ws : List ℕ) → value (replicate n 0 ++ ws) ≡ value ws
unfolding replicate value
value-zeros zero ws = refl
value-zeros (suc n) ws = omega (arith, value-zeros n ws)

-- On arrays of words of the same length, SegPointCompare_64_128 compares the numbers. Add adds 1 to the
-- number and Subtract takes 1 from it, in both cases up to the first number beyond the array, and the flags
-- say when this is met. Assign_DiffBits keeps the number, and fills the array if the source fits.
pub words-numbers :
    (ws vs : List ℕ) (d_words : ℕ)
    → AreWords ws
    → AreWords vs
    → length ws ≡ length vs
    → length ws ≤ d_words
    → Compares (value ws) (value vs) (seg_point_compare ws vs)
      × (value (add_words ws).0 + (if (add_words ws).1 then beyond ws else 0) ≡ value ws + 1)
      × (value (subtract_words ws).0 + 1
          ≡ value ws + (if (subtract_words ws).1 then beyond ws else 0))
      × (value (assign_diffbits d_words ws) ≡ value ws)
      × (length (assign_diffbits d_words ws) ≡ d_words)
unfolding assign_diffbits
words-numbers ws vs d_words a b same fits = (
  compare-Compares ws vs same a b,
  add-value ws a,
  subtract-value ws a,
  value-zeros (d_words - length ws) ws,
  omega (
    arith,
    length-append (replicate {A = ℕ} (d_words - length ws) 0) ws,
    length-replicate {A = ℕ} (d_words - length ws) 0,
  ),
)
