-- ===== src/Rapid/Atoms/Quotes.antt =====
-- The quotes of a RAPID string: what `strip_quotes` removes, and when it throws.
use abb_librws.Base.{
  ℕ, zero, suc, ◌≢◌, ◌≡◌, refl, ap, ◌∙◌, ◌<◌, ◌↔◌, ◌⊎◌, inl, inr, Text, find_first, find_last,
  last_index, remove_at, erase, length, length-append, ◌==◌, ==_refl, if◌then◌else◌, [], ◌∷◌, ◌++◌,
  none, some, arith,
}
use abb_librws.Rapid.Atoms.{
  quote, drop_first_quote, drop_last_quote, strip_quotes, construct_string,
}

pub find_last-append_one : (c : ℕ) (t : Text) → find_last c (t ++ c ∷ []) ≡ some (length t)
unfolding find_last
find_last-append_one c [] = ground arith
find_last-append_one c (x ∷ t) = rw (find_last-append_one c t, find_last)

last_index-append_one : (c : ℕ) (t : Text) → last_index (t ++ c ∷ []) ≡ some (length t)
last_index-append_one c [] = refl
last_index-append_one c (x ∷ t) = ap some (length-append t (c ∷ []) ∙ omega arith)

remove_at-append_one : (c : ℕ) (t : Text) → remove_at (length t) (t ++ c ∷ []) ≡ t
remove_at-append_one c [] = refl
remove_at-append_one c (x ∷ t) = ap (λ s. x ∷ s) (remove_at-append_one c t)

pub erase-append_one : (c : ℕ) (t : Text) → erase (t ++ c ∷ []) (some (length t)) ≡ some t
erase-append_one c t = ground (arith, length-append t (c ∷ []), remove_at-append_one c t)

-- What `drop_first_quote` leaves.
abbrev pub without_first_quote : Text → Text
without_first_quote [] = []
without_first_quote (c ∷ s) = if c == b'"' then s else c ∷ s

drop_first_quote_lem : (t : Text) → drop_first_quote t ≡ some (without_first_quote t)
unfolding drop_first_quote find_first
drop_first_quote_lem [] = refl
drop_first_quote_lem (c ∷ s) = ground arith

drop_last_quote-append_one : (t : Text) → drop_last_quote (t ++ quote) ≡ some t
unfolding drop_last_quote
drop_last_quote-append_one t =
    rw (find_last-append_one b'"' t, last_index-append_one b'"' t, ==_refl (length t))
      (erase-append_one b'"' t)

-- Every string, quotes inside it included, comes back from its quoted form.
pub strip_quotes-construct_string : (v : Text) → strip_quotes (construct_string v) ≡ some v
unfolding strip_quotes construct_string
strip_quotes-construct_string v =
    rw (drop_first_quote_lem (quote ++ (v ++ quote)), strip_quotes) (drop_last_quote-append_one v)

-- Positions that `find_last` returns lie in the text.
find_last-lt-length : (c : ℕ) (t : Text) (i : ℕ) → find_last c t ≡ some i → i < length t
unfolding find_last
find_last-lt-length c [] i e = cc
find_last-lt-length c (x ∷ t) zero e = omega arith
find_last-lt-length c (x ∷ t) (suc i) e = ground (arith, find_last-lt-length c t i)

drop_last_quote-ne-none : (c : ℕ) (s : Text) → drop_last_quote (c ∷ s) ≢ none
unfolding drop_last_quote
drop_last_quote-ne-none c s e = ground (arith, find_last-lt-length b'"' (c ∷ s))

strip_quotes_lem : (s : Text) → strip_quotes s ≡ drop_last_quote (without_first_quote s)
unfolding strip_quotes
strip_quotes_lem s = rw (drop_first_quote_lem s, strip_quotes)

strip_quotes_throws : (s : Text) → strip_quotes s ≡ none → (s ≡ []) ⊎ (s ≡ quote)
strip_quotes_throws [] h = inl refl
strip_quotes_throws (c ∷ []) h =
    ground (arith, strip_quotes_lem (c ∷ []), drop_last_quote-ne-none c [])
strip_quotes_throws (c ∷ d ∷ s) h = ground (
  arith,
  strip_quotes_lem (c ∷ d ∷ s),
  drop_last_quote-ne-none c (d ∷ s),
  drop_last_quote-ne-none d s,
)

strip_quotes-quote : strip_quotes quote ≡ none
unfolding strip_quotes drop_first_quote drop_last_quote find_first find_last
strip_quotes-quote = refl

strip_quotes_empty : strip_quotes [] ≡ none
unfolding strip_quotes drop_first_quote drop_last_quote find_first find_last
strip_quotes_empty = refl

-- Removing the quotes throws at the empty text and at a lone quote, and nowhere else.
pub strip_quotes-eq-none_iff : (s : Text) → (strip_quotes s ≡ none) ↔ ((s ≡ []) ⊎ (s ≡ quote))
strip_quotes-eq-none_iff s = (
  strip_quotes_throws s,
  elim [ inl e ↦ rw e strip_quotes_empty | inr e ↦ rw e strip_quotes-quote ],
)
