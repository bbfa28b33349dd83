-- ===== src/Client/Commands/Sent.antt =====
-- What setSpeedRatio sends: the decimal text of a number, and how it reads back.
use abb_librws.Base.{
  ℕ, zero, suc, ◌+◌, ◌*◌, ◌-◌, ◌%◌, ◌<◌, ◌≤◌, ◌≡◌, refl, ltb, codes, Text, length, ◌⊎◌, All,
  All-append, [], ◌∷◌, ◌++◌, Option, arith, Bool-cases, inl, inr,
}
use Prim.Native.Nat.{◌/◌}
use abb_librws.Xml.{Node}
use abb_librws.Poco.Types.{raised, other_exception}
use abb_librws.Poco.Work.{Net, CookieStore}
use abb_librws.Client.Types.{RwsClient, digits, decimal}
use abb_librws.Client.Commands.{
  ratio_out_of_range, http_no_content, post_and_accept, set_speed_ratio,
}

-- The number that a text of digits means, after digits of this value.
abbrev pub read_digits : ℕ → Text → ℕ
read_digits higher [] = higher
read_digits higher (c ∷ t) = read_digits (higher * 10 + (c - 48)) t

read_digits-append :
    (higher : ℕ) (t : Text) (c : ℕ)
    → read_digits higher (t ++ c ∷ []) ≡ read_digits higher t * 10 + (c - 48)
read_digits-append higher [] c = refl
read_digits-append higher (b ∷ t) c = read_digits-append (higher * 10 + (b - 48)) t c

read_digits-digits : (fuel n : ℕ) → n < fuel → read_digits 0 (digits fuel n) ≡ n
unfolding digits
read_digits-digits zero n h = absurd (omega arith)
read_digits-digits (suc fuel) n h = elim (Bool-cases (ltb n 10)) [
  | inl small ↦ rw small (omega arith)
  | inr large ↦
      let big : 10 ≤ n = ground arith in
      let rest = read_digits-digits fuel (n / 10) (omega arith) in
      rw (large, read_digits-append 0 (digits fuel (n / 10)) (48 + n % 10), rest) (omega arith)
]

read_digits-decimal : (n : ℕ) → read_digits 0 (decimal n) ≡ n
unfolding decimal
read_digits-decimal n = read_digits-digits (suc n) n (omega arith)

-- The first character of a text, and 0 if there is none
abbrev pub leading : Text → ℕ
leading [] = 0
leading (c ∷ t) = c

-- A text of the characters from 0 to 9, which is one character or does not begin with 0.
abbrev pub IsNumeral : Text → Type 0
IsNumeral t = All (λ c. (48 ≤ c) × (c ≤ 57)) t × ((length t ≡ 1) ⊎ (49 ≤ leading t))

leading-append : (t : Text) (c : ℕ) → 49 ≤ leading t → leading (t ++ c ∷ []) ≡ leading t
leading-append [] c h = absurd (omega arith)
leading-append (b ∷ t) c h = refl

digits-AllDigits : (fuel n : ℕ) → All (λ c. (48 ≤ c) × (c ≤ 57)) (digits fuel n)
unfolding digits
digits-AllDigits zero n = tt
digits-AllDigits (suc fuel) n = elim (Bool-cases (ltb n 10)) [
  | inl small ↦ let bound : n < 10 = ground arith in rw small ((omega arith, omega arith), tt)
  | inr large ↦ rw large (
      All-append (λ c. (48 ≤ c) × (c ≤ 57)) (digits fuel (n / 10)) ((48 + n % 10) ∷ [])
        (digits-AllDigits fuel (n / 10)) ((omega arith, omega arith), tt))
]

digits-leading : (fuel n : ℕ) → n < fuel → 1 ≤ n → 49 ≤ leading (digits fuel n)
unfolding digits
digits-leading zero n h k = absurd (omega arith)
digits-leading (suc fuel) n h k = elim (Bool-cases (ltb n 10)) [
  | inl small ↦ rw small (omega arith)
  | inr large ↦
      let big : 10 ≤ n = ground arith in
      let rest = digits-leading fuel (n / 10) (omega arith) (omega arith) in
      rw (large, leading-append (digits fuel (n / 10)) (48 + n % 10) rest) rest
]

decimal-IsNumeral : (n : ℕ) → IsNumeral (decimal n)
unfolding decimal digits
decimal-IsNumeral zero = (digits-AllDigits 1 0, inl refl)
decimal-IsNumeral (suc n) = (
  digits-AllDigits (suc (suc n)) (suc n),
  inr (digits-leading (suc (suc n)) (suc n) (omega arith) (omega arith)),
)

-- Above 100, setSpeedRatio throws and leaves the client as it was; up to 100, it posts speed-ratio= and a
-- text of the characters from 0 to 9, with no 0 before another, that reads back as the ratio.
pub set_speed_ratio_lem :
    {Jar : Type 0} (net : Net) (store : CookieStore Jar) (parse_xml : Text → Option Node)
    (ratio : ℕ) (c : RwsClient Jar)
    → (100 < ratio
        → set_speed_ratio net store parse_xml ratio c
          ≡ (raised (record { kind = other_exception; display_text = ratio_out_of_range }), c))
      × (ratio ≤ 100
          → (t : Text) × IsNumeral t
            × (read_digits 0 t ≡ ratio)
            × (set_speed_ratio net store parse_xml ratio c
                ≡ post_and_accept net store parse_xml
                    (codes "/rw/panel/speedratio?action=setspeedratio")
                    (codes "speed-ratio=" ++ t)
                    (http_no_content ∷ [])
                    c))
unfolding set_speed_ratio
set_speed_ratio_lem net store parse_xml ratio c = (
  λ h. ground arith,
  λ h. (decimal ratio, decimal-IsNumeral ratio, read_digits-decimal ratio, ground arith),
)
