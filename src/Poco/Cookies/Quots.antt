-- ===== src/Poco/Cookies/Quots.antt =====
-- The removal of `&quot;` by findSubstringContent.
use abb_librws.Base.{
  ℕ, zero, suc, ◌+◌, ◌≤◌, ◌≡◌, refl, true, Text, take, drop, length, length-append, length-take,
  length-drop, [], ◌∷◌, ◌++◌, none, some, arith, Option-cases, inl, inr,
}
use abb_librws.Poco.Cookies.{
  starts_with, find, quot, remove_quots, content_between, find_substring_content,
}

starts_with-le : (s t : Text) → starts_with s t ≡ true → length s ≤ length t
unfolding starts_with
starts_with-le [] t h = omega arith
starts_with-le (c ∷ s) [] h = cc
starts_with-le (c ∷ s) (d ∷ t) h = ground (arith, starts_with-le s t)

find-le : (s t : Text) (i : ℕ) → find s t ≡ some i → i + length s ≤ length t
unfolding find
find-le s [] i h = ground (arith, starts_with-le s [])
find-le s (c ∷ t) zero h = ground (arith, starts_with-le s (c ∷ t))
find-le s (c ∷ t) (suc i) h = ground (arith, find-le s t i)

shorter :
    (r : Text) {fuel : ℕ} (i : ℕ)
    → find quot r ≡ some i
    → length r ≤ suc fuel
    → length (take i r ++ drop (i + length quot) r) ≤ fuel
shorter r i e h = omega (
  arith,
  find-le quot r i e,
  length-append (take i r) (drop (i + length quot) r),
  length-take i r,
  length-drop (i + length quot) r,
)

remove_quots_lem : (fuel : ℕ) (r : Text) → length r ≤ fuel → find quot (remove_quots fuel r) ≡ none
unfolding remove_quots
remove_quots_lem zero [] h = unfold find starts_with in refl
remove_quots_lem zero (c ∷ r) h = absurd (omega arith)
remove_quots_lem (suc fuel) r h = elim (Option-cases (find quot r)) [
  | inl e ↦ rw (e, remove_quots) e
  | inr (i, e) ↦ rw (e, remove_quots) (remove_quots_lem fuel _ (shorter r i e h))
]

-- The result holds no `&quot;`, also where the removal of one has joined the parts of another.
pub find_substring_content-unquoted :
    (whole_string substring_start substring_end : Text)
    → find quot (find_substring_content whole_string substring_start substring_end) ≡ none
unfolding find_substring_content
find_substring_content-unquoted whole_string substring_start substring_end =
    let result = content_between whole_string substring_start substring_end in
    remove_quots_lem (length result) result (omega arith)
