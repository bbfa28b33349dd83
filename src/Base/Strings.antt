-- ===== src/Base/Strings.antt =====
-- `std::string` as the list of its bytes, with the operations of it that the sources use. A position
-- is an `Option`: `none` is `npos`.
use Prim.Native.Char.{code}
use Prim.Native.String.{String}
use mathlib.Core.Option
use abb_librws.Base.Tests.{leb, ◌==◌, if◌then◌else◌}
use abb_librws.Base.Lists.{length}
use Prim.Native.Nat.{ℕ, zero, suc}
use mathlib.Core.Path.{◌≡◌, refl}
use mathlib.Core.Logic.{◌↔◌}
use mathlib.Core.Bool.{Bool, true, false, ◌&&◌, ◌||◌}
use mathlib.Core.Option.{Option, none, some}
use mathlib.Core.List.{List, [], ◌∷◌}
use native.Mathlib.Omega.{arith}

abbrev pub Text : Type 0
Text = List ℕ

-- A literal.
abbrev pub codes : String → Text
codes String.[] = []
codes (String.◌∷◌ c s) = code c ∷ codes s

-- `empty()`
abbrev pub is_empty : Text → Bool
is_empty [] = true
is_empty (c ∷ t) = false

-- `==`, and `compare(…) == 0`
unfoldable pub text_eq : Text → Text → Bool
text_eq [] [] = true
text_eq (a ∷ s) (b ∷ t) = (a == b) && text_eq s t
text_eq _ _ = false

pub text_eq_sound : (s t : Text) → text_eq s t ≡ true → s ≡ t
unfolding text_eq
text_eq_sound [] [] h = refl
text_eq_sound [] (b ∷ t) h = cc
text_eq_sound (a ∷ s) [] h = cc
text_eq_sound (a ∷ s) (b ∷ t) h = ground (arith, text_eq_sound s t)

pub text_eq_refl : (s : Text) → text_eq s s ≡ true
unfolding text_eq
text_eq_refl [] = refl
text_eq_refl (a ∷ s) = ground (arith, text_eq_refl s)

pub text_eq_iff : (s t : Text) → (text_eq s t ≡ true) ↔ (s ≡ t)
text_eq_iff s t = (text_eq_sound s t, λ e. rw e (text_eq_refl t))

-- `find_first_of(c)`
unfoldable pub find_first : ℕ → Text → Option ℕ
find_first c [] = none
find_first c (x ∷ t) = if x == c then some 0 else Option.map suc (find_first c t)

-- `find_last_of(c)`
unfoldable pub find_last : ℕ → Text → Option ℕ
find_last c [] = none
find_last c (x ∷ t) = elim (find_last c t) [
  | some i ↦ some (suc i)
  | none ↦ if x == c then some 0 else none
]

-- `size() - 1`, which wraps round to `npos` at the empty string.
abbrev pub last_index : Text → Option ℕ
last_index [] = none
last_index (c ∷ t) = some (length t)

-- `position - 1`, which wraps round to `npos` at 0.
abbrev pub before : Option ℕ → Option ℕ
before none = none
before (some zero) = none
before (some (suc i)) = some i

abbrev pub pos_eq : Option ℕ → Option ℕ → Bool
pos_eq none none = true
pos_eq (some i) (some j) = i == j
pos_eq _ _ = false

-- The text without the byte at a position.
abbrev pub remove_at : ℕ → Text → Text
remove_at i [] = []
remove_at zero (c ∷ t) = t
remove_at (suc i) (c ∷ t) = c ∷ remove_at i t

-- `erase(position, 1)`: `none` is the `std::out_of_range` of a position past the end.
abbrev pub erase : Text → Option ℕ → Option Text
erase t none = none
erase t (some i) = if leb i (length t) then some (remove_at i t) else none

-- The bytes that the classic locale's `isspace` holds of.
abbrev pub is_space : ℕ → Bool
is_space c = c == 32 || (leb 9 c && leb c 13)

-- `std::getline(stream, piece, delimiter)` until it fails: no piece follows a final delimiter.
abbrev pub push_front : ℕ → List Text → List Text
push_front c [] = (c ∷ []) ∷ []
push_front c (w ∷ ws) = (c ∷ w) ∷ ws

unfoldable pub split : ℕ → Text → List Text
split d [] = []
split d (c ∷ t) = let rest = split d t in if c == d then [] ∷ rest else push_front c rest

-- The skipping of white space and the reading of one word by `stream >> text`; at the end of the
-- stream the text keeps its value.
unfoldable pub skip_space : Text → Text
skip_space [] = []
skip_space (c ∷ t) = if is_space c then skip_space t else c ∷ t

unfoldable pub take_word : Text → Text
take_word [] = []
take_word (c ∷ t) = if is_space c then [] else c ∷ take_word t

unfoldable pub read_word : Text → Text → Text
read_word old t = elim (skip_space t) [ [] ↦ old | c ∷ s ↦ take_word (c ∷ s) ]
