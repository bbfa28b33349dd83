-- ===== src/Client/Evaluation/Log.antt =====
-- The log of the client against the whole list of results.
use abb_librws.Base.{
  ℕ, zero, suc, ◌≤◌, ◌≡◌, refl, sym, ap, ◌∙◌, leb, length, length-take, take, Text, Option, List,
  [], ◌∷◌, arith, Bool-cases, inl, inr,
}
use mathlib.Core.List.{map}
use abb_librws.Poco.Types.{PocoResult}
use abb_librws.Xml.{Node}
use abb_librws.Client.Types.{RwsClient, EvaluationConditions}
use abb_librws.Client.Evaluation.{log_size, drop_last, push_log, evaluate}

drop_last-take :
    (n : ℕ) (xs : List PocoResult)
    → length (take (suc n) xs) ≡ suc n
    → drop_last (take (suc n) xs) ≡ take n xs
drop_last-take n [] h = absurd (omega arith)
drop_last-take zero (x ∷ xs) h = refl
drop_last-take (suc n) (x ∷ []) h = absurd (omega arith)
drop_last-take (suc n) (x ∷ y ∷ xs) h = ap (λ r. x ∷ r) (drop_last-take n (y ∷ xs) (omega arith))

take_nil : (n : ℕ) → take {A = PocoResult} n [] ≡ []
take_nil zero = refl
take_nil (suc n) = refl

take_of_short : (n : ℕ) (xs : List PocoResult) → length xs ≤ n → take n xs ≡ xs
take_of_short n [] h = take_nil n
take_of_short zero (x ∷ xs) h = absurd (omega arith)
take_of_short (suc n) (x ∷ xs) h = ap (λ r. x ∷ r) (take_of_short n xs (omega arith))

push_log-take :
    (r : PocoResult) (xs : List PocoResult) → push_log r (take log_size xs) ≡ take log_size (r ∷ xs)
unfolding push_log
push_log-take r xs = elim (Bool-cases (leb log_size (length (take log_size xs)))) [
  | inl full ↦
      rw full (ap (λ l. r ∷ l) (drop_last-take 19 xs (ground (arith, length-take log_size xs))))
  | inr short ↦
      let few : length xs ≤ 19 = ground (arith, length-take log_size xs) in
      rw short
        (ap (λ l. r ∷ l) (take_of_short log_size xs (omega arith) ∙ sym (take_of_short 19 xs few)))
]

-- The state after the evaluation of these results, the last of which stands first.
pub after_results :
    {Jar : Type 0}
    → (Text → Option Node)
    → List (PocoResult × EvaluationConditions)
    → RwsClient Jar
    → RwsClient Jar
after_results parse_xml [] c = c
after_results parse_xml ((r, conditions) ∷ rest) c =
    (evaluate parse_xml r conditions (after_results parse_xml rest c)).1

-- The log of a client that began with none is the last twenty results evaluated, the newest first.
pub log-after_results :
    {Jar : Type 0} (parse_xml : Text → Option Node) (rs : List (PocoResult × EvaluationConditions))
    (c : RwsClient Jar)
    → c.log ≡ []
    → (after_results parse_xml rs c).log ≡ take log_size (map (λ r. r.0) rs)
unfolding after_results evaluate
log-after_results parse_xml [] c h = h
log-after_results parse_xml ((r, conditions) ∷ rest) c h =
    ap (push_log r) (log-after_results parse_xml rest c h) ∙ push_log-take r (map (λ x. x.0) rest)
