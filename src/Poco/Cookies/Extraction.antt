-- ===== src/Poco/Cookies/Extraction.antt =====
-- The cookie that a `Set-Cookie` text names, and the substring between two delimiters.
use abb_librws.Base.{
  ℕ, suc, ◌+◌, ◌-◌, ◌≡◌, refl, sym, ap, ap₂, ◌∙◌, append_assoc, take-length-append, true, false,
  Text, find_first, leb, drop, length, length-append, ◌==◌, ==_refl, [], ◌∷◌, ◌++◌, some, All,
  arith,
}
use abb_librws.Poco.Cookies.{extract_cookie, substr_between}

-- A byte does not stand in a text.
abbrev pub Lacks : ℕ → Text → Type 0
Lacks c = All (λ x. (x == c) ≡ false)

find_first-append : (c : ℕ) (s t : Text) → Lacks c s → find_first c (s ++ c ∷ t) ≡ some (length s)
unfolding find_first
find_first-append c [] t h = rw ==_refl
find_first-append c (x ∷ s) t h = rw (h.0, find_first-append c s t h.1)

Lacks-append : (c : ℕ) (s t : Text) → Lacks c s → Lacks c t → Lacks c (s ++ t)
Lacks-append c [] t h k = k
Lacks-append c (x ∷ s) t h k = (h.0, Lacks-append c s t h.1 k)

drop_after : (s : Text) (c : ℕ) (t : Text) → drop (suc (length s)) (s ++ c ∷ t) ≡ t
drop_after [] c t = refl
drop_after (x ∷ s) c t = drop_after s c t

substr_after :
    (name value rest : Text)
    → substr_between
        (length name + 1)
        (length name + suc (length value))
        (name ++ b'=' ∷ (value ++ b';' ∷ rest))
      ≡ value
substr_after name value rest =
    let from : length name + 1 ≡ suc (length name) = omega arith in
    let count : length name + suc (length value) - suc (length name) ≡ length value = omega arith in
    let fits : leb (suc (length name)) (length name + suc (length value)) ≡ true = ground arith in
    rw (from, fits, count, drop_after name b'=' (value ++ b';' ∷ rest))
      (take-length-append value (b';' ∷ rest))

-- From `name=value;…`, where the name has neither delimiter and the value no semicolon, the name and
-- the value are stored.
pub extract_cookie_lem :
    (name value rest : Text)
    → Lacks b'=' name
    → Lacks b';' name
    → Lacks b';' value
    → extract_cookie (name ++ b'=' ∷ (value ++ b';' ∷ rest)) ≡ some (name, value)
unfolding extract_cookie
extract_cookie_lem name value rest h k l =
    rw (find_first-append b'=' name (value ++ b';' ∷ rest) h, extract_cookie, semicolon)
      (ap₂ (λ x y. some (x, y)) (take-length-append name _) between)
  where
    text : Text
    text = name ++ b'=' ∷ (value ++ b';' ∷ rest)

    shape : text ≡ (name ++ b'=' ∷ value) ++ b';' ∷ rest
    shape = sym (append_assoc name (b'=' ∷ value) (b';' ∷ rest))

    semicolon : find_first b';' text ≡ some (length name + suc (length value))
    semicolon =
        ap (find_first b';') shape
        ∙ find_first-append b';' (name ++ b'=' ∷ value) rest
            (Lacks-append b';' name (b'=' ∷ value) k (refl, l))
        ∙ ap some (length-append name (b'=' ∷ value))

    between : substr_between (length name + 1) (length name + suc (length value)) text ≡ value
    between = substr_after name value rest
