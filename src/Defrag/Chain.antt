-- ===== src/Defrag/Chain.antt =====
-- The list of fragments: in order, without overlap, and without a gap once it is full.
use sec_fw.Common.{
  ℕ, ◌+◌, ◌≤◌, ◌≡◌, refl, inl, inr, ap, true, Bool-cases, leb, List, [], ◌∷◌, ◌++◌, arith,
  append-nil,
}
use sec_fw.Defrag.{Fragment, walk, after_tail, place, clear_of_prev, clear_of_next}

abbrev pub end_of : Fragment → ℕ
end_of f = f.frag_offset + f.frag_len

-- The fragments lie one behind the other between `low` and `high`.
unfoldable pub Apart : ℕ → List Fragment → ℕ → Type 0
Apart low [] high = low ≤ high
Apart low (f ∷ fs) high = (low ≤ f.frag_offset) × Apart (end_of f) fs high

-- They fill it: each begins where the one before ends.
unfoldable pub Tiles : ℕ → List Fragment → ℕ → Type 0
Tiles low [] high = low ≡ high
Tiles low (f ∷ fs) high = (f.frag_offset ≡ low) × Tiles (end_of f) fs high

unfoldable pub total_len : List Fragment → ℕ
total_len [] = 0
total_len (f ∷ fs) = f.frag_len + total_len fs

pub total_len-insert :
    (m : Fragment) (before behind : List Fragment)
    → total_len (before ++ m ∷ behind) ≡ total_len (before ++ behind) + m.frag_len
unfolding total_len
total_len-insert m [] behind = omega arith
total_len-insert m (f ∷ before) behind = omega (arith, total_len-insert m before behind)

pub Apart-bound :
    (low : ℕ) (fs : List Fragment) (high : ℕ) → Apart low fs high → low + total_len fs ≤ high
unfolding Apart total_len
Apart-bound low [] high a = omega arith
Apart-bound low (f ∷ fs) high (a, b) = omega (arith, Apart-bound (end_of f) fs high b)

-- Fragments that do not overlap and have the whole length together leave no gap.
pub Apart-Tiles :
    (low : ℕ) (fs : List Fragment) (high : ℕ)
    → Apart low fs high
    → low + total_len fs ≡ high
    → Tiles low fs high
unfolding Apart Tiles total_len
Apart-Tiles low [] high a e = omega (arith, e)
Apart-Tiles low (f ∷ fs) high (a, b) e =
    let room = Apart-bound (end_of f) fs high b in
    (omega (arith, room), Apart-Tiles (end_of f) fs high b (omega (arith, room)))

pub Apart-more :
    (low : ℕ) (fs : List Fragment) (high high' : ℕ)
    → high ≤ high'
    → Apart low fs high
    → Apart low fs high'
unfolding Apart
Apart-more low [] high high' h a = omega arith
Apart-more low (f ∷ fs) high high' h (a, b) = (a, Apart-more (end_of f) fs high high' h b)

prev_bound :
    (low : ℕ) (f : Fragment) (fs behind : List Fragment) (high offset : ℕ)
    → Apart low (f ∷ fs ++ behind) high
    → clear_of_prev (f ∷ fs) offset ≡ true
    → low ≤ offset
unfolding Apart clear_of_prev
prev_bound low f [] behind high offset (a, b) p = ground arith
prev_bound low f (g ∷ gs) behind high offset (a, b) p =
    omega (arith, prev_bound (end_of f) g gs behind high offset b p)

-- A fragment that is clear of its neighbours keeps the list in order.
pub Apart-insert :
    (m : Fragment) (low : ℕ) (before behind : List Fragment) (high : ℕ)
    → Apart low (before ++ behind) high
    → low ≤ m.frag_offset
    → end_of m ≤ high
    → clear_of_prev before m.frag_offset ≡ true
    → clear_of_next behind (end_of m) ≡ true
    → Apart low (before ++ m ∷ behind) high
unfolding Apart clear_of_prev
Apart-insert m low [] [] high a l e p n = (l, e)
Apart-insert m low [] (f ∷ fs) high (a, b) l e p n = (l, (ground arith, b))
Apart-insert m low (f ∷ []) behind high (a, b) l e p n =
    (a, Apart-insert m (end_of f) [] behind high b (ground arith) e refl n)
Apart-insert m low (f ∷ g ∷ gs) behind high (a, b) l e p n = (
  a,
  Apart-insert m (end_of f) (g ∷ gs) behind high b
      (prev_bound (end_of f) g gs behind high m.frag_offset b p) e p n,
)

-- The place of a fragment splits the list.
pub walk-append : (offset : ℕ) (fs : List Fragment) → (walk offset fs).0 ++ (walk offset fs).1 ≡ fs
unfolding walk
walk-append offset [] = refl
walk-append offset (f ∷ fs) = elim (Bool-cases (leb offset f.frag_len)) [
  | inl e ↦ rw e refl
  | inr e ↦ rw e (ap (λ xs. f ∷ xs) (walk-append offset fs))
]

pub place-append :
    (offset : ℕ) (fs : List Fragment) → (place offset fs).0 ++ (place offset fs).1 ≡ fs
unfolding place
place-append offset fs = elim (Bool-cases (after_tail fs offset)) [
  | inl e ↦ rw e (append-nil fs)
  | inr e ↦ rw e (walk-append offset fs)
]
