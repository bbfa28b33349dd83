-- ===== src/Rapid/Atoms/Words.antt =====
-- The round trip of a RAPID string through `constructString` and `parseString`.
use abb_librws.Base.{
  ◌≡◌, refl, sym, ◌∙◌, ◌↔◌, ◌⊎◌, ◌≢◌, false, Text, is_space, skip_space, take_word, read_word, [],
  ◌∷◌, arith, All, ap,
}
use abb_librws.Rapid.Atoms.{quote, construct_string, returned, threw, parse_string}
use abb_librws.Rapid.Atoms.Quotes.{strip_quotes-construct_string, strip_quotes-eq-none_iff}

-- No byte is white space.
abbrev pub IsUnspaced : Text → Type 0
IsUnspaced = All (λ c. is_space c ≡ false)

take_word-IsUnspaced : (t : Text) → IsUnspaced (take_word t)
unfolding take_word
take_word-IsUnspaced [] = tt
take_word-IsUnspaced (c ∷ t) = ground (arith, take_word-IsUnspaced t)

take_word_of_unspaced : (t : Text) → IsUnspaced t → take_word t ≡ t
unfolding take_word
take_word_of_unspaced [] h = refl
take_word_of_unspaced (c ∷ t) h = rw h.0 (ap (λ s. c ∷ s) (take_word_of_unspaced t h.1))

read_word_of_unspaced : (old t : Text) → t ≢ [] → IsUnspaced t → read_word old t ≡ t
unfolding read_word skip_space
read_word_of_unspaced old [] n h = absurd (n refl)
read_word_of_unspaced old (c ∷ t) n h = rw (h.0, read_word) (take_word_of_unspaced (c ∷ t) h)

read_word-IsUnspaced : (old t : Text) → IsUnspaced old → IsUnspaced (read_word old t)
unfolding read_word
read_word-IsUnspaced old t h =
    elim (skip_space t) as (λ r. IsUnspaced (elim r [ [] ↦ old | c ∷ s ↦ take_word (c ∷ s) ])) [
      | [] ↦ h
      | c ∷ s ↦ take_word-IsUnspaced (c ∷ s)
    ]

read_nothing : read_word (0 ∷ []) [] ≢ []
unfolding read_word skip_space
read_nothing e = cc

returned-injective : {s t : Text} → returned s ≡ returned t → s ≡ t
returned-injective h = cc

-- Parsing the text that a value makes returns, and reads the first word of the value.
pub parse_string-construct_string :
    (old v : Text) → parse_string old (construct_string v) ≡ returned (read_word old v)
unfolding parse_string
parse_string-construct_string old v = rw (strip_quotes-construct_string v, parse_string)

-- Parsing throws exactly at the empty text and at a lone quote, and it leaves the old value then.
pub parse_string-eq-threw_iff :
    (old s : Text) → (parse_string old s ≡ threw old) ↔ ((s ≡ []) ⊎ (s ≡ quote))
unfolding parse_string
parse_string-eq-threw_iff old s =
    let e = strip_quotes-eq-none_iff s in (λ h. e.0 (ground arith), λ h. rw (e.1 h, parse_string))

-- A string value comes back from its text, whatever the object held, exactly if it is not empty and
-- has no white space.
pub string_round_trip_iff :
    (v : Text)
    → ((old : Text) → parse_string old (construct_string v) ≡ returned v)
      ↔ ((v ≢ []) × IsUnspaced v)
string_round_trip_iff v = (λ h. (nonempty h, unspaced h), back)
  where
    reads :
        ((old : Text) → parse_string old (construct_string v) ≡ returned v)
        → (old : Text) → read_word old v ≡ v
    reads h old = returned-injective (sym (parse_string-construct_string old v) ∙ h old)

    nonempty : ((old : Text) → parse_string old (construct_string v) ≡ returned v) → v ≢ []
    nonempty h e = read_nothing (ap (read_word (0 ∷ [])) (sym e) ∙ reads h (0 ∷ []) ∙ e)

    unspaced : ((old : Text) → parse_string old (construct_string v) ≡ returned v) → IsUnspaced v
    unspaced h = rw (reads h []) at (read_word-IsUnspaced [] v tt)

    back :
        (v ≢ []) × IsUnspaced v → (old : Text) → parse_string old (construct_string v) ≡ returned v
    back h old = rw (parse_string-construct_string, read_word_of_unspaced old v h.0 h.1)
