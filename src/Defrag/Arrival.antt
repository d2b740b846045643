-- ===== src/Defrag/Arrival.antt =====
-- The order in which the fragments of a datagram arrive.
use sec_fw.Common.{
  ℕ, ◌≤◌, ◌<◌, ◌≡◌, sym, inl, inr, ap, ◌∙◌, Bool, [], ◌∷◌, some, Option-cases, some-inj, none≢some,
  arith,
}
use sec_fw.Defrag.{
  Fragment, Fcb, dropped, after_tail, walk, place, note_end, insert_fragment, frag_defrag_process,
}
use sec_fw.Defrag.Collect.{note_end-cases}
use sec_fw.Defrag.Process.{process-refused, process-noted, insert-dropped}

-- The tests on the end of a fragment keep the fragments.
note_end-fragments :
    (m : Fragment) (fcb g : Fcb) → note_end m fcb ≡ some g → g.fragments ≡ fcb.fragments
note_end-fragments m fcb g e = elim (note_end-cases m fcb) [
  | inl n ↦ absurd (none≢some (sym n ∙ e))
  | inr (inl (n, r)) ↦ ap (λ x. x.fragments) (sym (some-inj (sym n ∙ e)))
  | inr (inr (last, n, r)) ↦ ap (λ x. x.fragments) (sym (some-inj (sym n ∙ e)))
]

place-second :
    (offset : ℕ) (a c : Fragment)
    → a.frag_len ≡ offset
    → offset ≤ c.frag_offset
    → place offset (a ∷ c ∷ []) ≡ ([], a ∷ c ∷ [])
unfolding place after_tail walk
place-second offset a c e h = ground (arith, e)

-- A second fragment that arrives behind the third is destroyed: the search for its place compares its
-- offset with the length of the first fragment and stops there.
pub second_after_third-dropped :
    (memory : ℕ → Bool) (m : Fragment) (fcb : Fcb) (a c : Fragment)
    → fcb.fragments ≡ a ∷ c ∷ []
    → a.frag_offset ≡ 0
    → a.frag_len ≡ m.frag_offset
    → m.frag_offset ≤ c.frag_offset
    → 0 < m.frag_len
    → (frag_defrag_process memory m fcb).0 ≡ dropped
second_after_third-dropped memory m fcb a c two first meets behind len =
    elim (Option-cases (note_end m fcb)) [
      | inl e ↦ ap (λ r. r.0) (process-refused memory m fcb e)
      | inr (g, e) ↦
          ap (λ r. r.0)
            (process-noted memory m fcb g e
              ∙ ap (λ fs. insert_fragment memory m g (place m.frag_offset fs))
                  (note_end-fragments m fcb g e ∙ two)
              ∙ ap (insert_fragment memory m g) (place-second m.frag_offset a c meets behind)
              ∙ insert-dropped memory m g [] (a ∷ c ∷ []) (inr (ground (arith, first))))
    ]
