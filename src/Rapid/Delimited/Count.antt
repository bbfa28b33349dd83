-- ===== src/Rapid/Delimited/Count.antt =====
-- countCharInString counts: its loop against a plain count.
use abb_librws.Base.{
  ℕ, zero, suc, ◌+◌, ◌%◌, ◌≤◌, ◌<◌, ◌≡◌, refl, inl, inr, Text, find_first, remove_at, length, ◌==◌,
  if◌then◌else◌, [], ◌∷◌, ◌++◌, none, some, arith, Option-cases, ◌∙◌,
}
use abb_librws.Rapid.Delimited.{uint_range, count_loop, count_char_in_string}

-- How often a byte stands in a text.
unfoldable pub occurrences : ℕ → Text → ℕ
occurrences c [] = 0
occurrences c (x ∷ t) = if x == c then suc (occurrences c t) else occurrences c t

occurrences-le-length : (c : ℕ) (t : Text) → occurrences c t ≤ length t
unfolding occurrences
occurrences-le-length c [] = omega arith
occurrences-le-length c (x ∷ t) = ground (arith, occurrences-le-length c t)

pub occurrences-append :
    (c : ℕ) (s t : Text) → occurrences c (s ++ t) ≡ occurrences c s + occurrences c t
unfolding occurrences
occurrences-append c [] t = omega arith
occurrences-append c (x ∷ s) t = ground (arith, occurrences-append c s t)

occurrences_of_absent : (c : ℕ) (t : Text) → find_first c t ≡ none → occurrences c t ≡ 0
unfolding occurrences find_first
occurrences_of_absent c [] h = refl
occurrences_of_absent c (x ∷ t) h = ground (arith, occurrences_of_absent c t)

occurrences-remove_at :
    (c : ℕ) (t : Text) (i : ℕ)
    → find_first c t ≡ some i
    → occurrences c t ≡ suc (occurrences c (remove_at i t))
unfolding occurrences find_first
occurrences-remove_at c [] i h = cc
occurrences-remove_at c (x ∷ t) zero h = ground arith
occurrences-remove_at c (x ∷ t) (suc i) h = ground (arith, occurrences-remove_at c t i)

count_loop_lem :
    (fuel : ℕ) (t : Text) (c n : ℕ)
    → occurrences c t < fuel
    → n < uint_range
    → count_loop fuel t c n ≡ (n + occurrences c t) % uint_range
unfolding count_loop
count_loop_lem zero t c n h b = elim h [ ]
count_loop_lem (suc fuel) t c n h b = elim (Option-cases (find_first c t)) [
  | inl e ↦ rw (e, count_loop) (omega (arith, occurrences_of_absent c t e))
  | inr (i, e) ↦
      let fewer = occurrences-remove_at c t i e in
      rw (e, count_loop)
        (count_loop_lem fuel (remove_at i t) c ((n + 1) % uint_range) (omega arith) (omega arith)
          ∙ omega arith)
]

-- The loop ends with the number of times that the byte stands in the text, as an `unsigned int`.
pub count_char_in_string-eq-occurrences :
    (t : Text) (c : ℕ) → count_char_in_string t c ≡ occurrences c t % uint_range
unfolding count_char_in_string
count_char_in_string-eq-occurrences t c =
    count_loop_lem (suc (length t)) t c 0 (omega (arith, occurrences-le-length c t)) (omega arith)
    ∙ omega arith
