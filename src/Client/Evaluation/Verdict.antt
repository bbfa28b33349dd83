-- ===== src/Client/Evaluation/Verdict.antt =====
-- When evaluatePOCOResult calls a result a success.
use abb_librws.Base.{
  ℕ, ◌≡◌, ◌≢◌, refl, ◌↔◌, ◌⊎◌, inl, inr, Bool, true, false, Text, is_empty, ◌&&◌, if◌then◌else◌,
  List, [], ◌∷◌, Option, none, some, arith, Option-cases, Bool-cases,
}
use abb_librws.Xml.{Node}
use abb_librws.Poco.Types.{
  PocoResult, GeneralStatus, unknown, ok, websocket_not_allocated, exception_poco_invalid_argument,
  exception_poco_timeout, exception_poco_net, exception_poco_websocket,
}
use abb_librws.Poco.Socket.{is_ok}
use abb_librws.Client.Types.{RwsResult, no_success, EvaluationConditions}
use abb_librws.Client.Evaluation.{
  any_accepted, check_accepted_outcomes, message_of, parse_message, verdict,
}

-- The status is one of the outcomes.
abbrev pub IsOneOf : ℕ → List ℕ → Type 0
IsOneOf status [] = ⊥
IsOneOf status (outcome ∷ outcomes) = (status ≡ outcome) ⊎ IsOneOf status outcomes

any_accepted_iff :
    (status : ℕ) (outcomes : List ℕ)
    → (any_accepted status outcomes ≡ true) ↔ IsOneOf status outcomes
unfolding any_accepted
any_accepted_iff status [] = (λ h. cc, λ h. elim h [ ])
any_accepted_iff status (o ∷ os) =
    let (f, g) = any_accepted_iff status os in
    (
      λ h. ground arith,
      λ h. elim h [ inl e ↦ ground arith | inr k ↦ let rest = g k in ground arith ],
    )

-- The exchange was OK, no exception was caught, and the status is accepted.
abbrev pub IsAccepted : PocoResult → EvaluationConditions → Type 0
IsAccepted r conditions =
    (r.status ≡ ok)
    × (r.exception_message ≡ [])
    × IsOneOf r.response.status conditions.accepted_outcomes

-- Where a document is wanted, the message is not empty and the parser makes this document of it; where
-- none is wanted, there is none.
abbrev pub HasDocument : (Text → Option Node) → PocoResult → Bool → Option Node → Type 0
HasDocument parse_xml r true document =
    (message_of r ≢ []) × ((d : Node) × (parse_xml (message_of r) ≡ some d) × (document ≡ some d))
HasDocument parse_xml r false document = document ≡ none

empty_iff : (t : Text) → (is_empty t ≡ true) ↔ (t ≡ [])
empty_iff [] = (λ _. refl, λ _. refl)
empty_iff (c ∷ t) = (λ h. cc, λ h. cc)

parse_message_success_iff :
    (parse_xml : Text → Option Node) (result : RwsResult) (r : PocoResult)
    → result.success ≡ true
    → ((parse_message parse_xml result r).success ≡ true)
      ↔ HasDocument parse_xml r true (parse_message parse_xml result r).document
unfolding parse_message
parse_message_success_iff parse_xml result r h =
    let (to_nil, from_nil) = empty_iff (message_of r) in
    elim (Bool-cases (is_empty (message_of r))) [
      | inl e ↦ rw e (λ k. cc, λ k. absurd (k.0 (to_nil e)))
      | inr n ↦ elim (Option-cases (parse_xml (message_of r))) [
        | inl none_made ↦ rw (n, none_made) (λ k. cc, λ k. cc)
        | inr (d, made) ↦ rw (n, made) (λ k. ((λ x. cc), (d, refl, refl)), λ k. h)
      ]
    ]

is_ok_iff : (s : GeneralStatus) → (is_ok s ≡ true) ↔ (s ≡ ok)
is_ok_iff ok = (λ _. refl, λ _. refl)
is_ok_iff unknown = (λ h. cc, λ h. cc)
is_ok_iff websocket_not_allocated = (λ h. cc, λ h. cc)
is_ok_iff exception_poco_invalid_argument = (λ h. cc, λ h. cc)
is_ok_iff exception_poco_timeout = (λ h. cc, λ h. cc)
is_ok_iff exception_poco_net = (λ h. cc, λ h. cc)
is_ok_iff exception_poco_websocket = (λ h. cc, λ h. cc)

check_success_iff :
    (r : PocoResult) (conditions : EvaluationConditions)
    → ((check_accepted_outcomes no_success r conditions).success ≡ true) ↔ IsAccepted r conditions
unfolding check_accepted_outcomes
check_success_iff r conditions =
    let (to_one, from_one) = any_accepted_iff r.response.status conditions.accepted_outcomes in
    let (to_nil, from_nil) = empty_iff r.exception_message in
    let (to_ok, from_ok) = is_ok_iff r.status in
    elim (Bool-cases (is_ok r.status)) [
      | inr a ↦ rw a (λ h. cc, λ h. cc)
      | inl a ↦ elim (Bool-cases (is_empty r.exception_message)) [
        | inr b ↦ rw (a, b) (λ h. cc, λ h. cc)
        | inl b ↦ elim (Bool-cases (any_accepted r.response.status conditions.accepted_outcomes)) [
          | inr d ↦ rw (a, b, d) (λ h. cc, λ h. let refused = from_one h.2 in cc)
          | inl d ↦ rw (a, b, d) (λ h. (to_ok a, to_nil b, to_one d), λ h. refl)
        ]
      ]
    ]

check-document :
    (r : PocoResult) (conditions : EvaluationConditions)
    → (check_accepted_outcomes no_success r conditions).document ≡ none
unfolding check_accepted_outcomes
check-document r conditions = elim (Bool-cases (is_ok r.status && is_empty r.exception_message)) [
  | inr a ↦ rw a refl
  | inl a ↦ elim (Bool-cases (any_accepted r.response.status conditions.accepted_outcomes)) [
    | inr b ↦ rw (a, b) refl
    | inl b ↦ rw (a, b) refl
  ]
]

-- What follows the check, on a checked result that has its fields apart.
parsed_iff :
    (parse_xml : Text → Option Node) (r : PocoResult) (success : Bool) (document : Option Node)
    (message : Text) (wanted : Bool)
    → document ≡ none
    → let checked : RwsResult = record {
      success = success;
      document = document;
      error_message = message;
    } in
      let result = if success && wanted then parse_message parse_xml checked r else checked in
      (result.success ≡ true) ↔ ((success ≡ true) × HasDocument parse_xml r wanted result.document)
parsed_iff parse_xml r true document message true h =
    let (f, g) =
      parse_message_success_iff parse_xml
        (record { success = true; document = document; error_message = message }) r refl in
    (λ k. (refl, f k), λ k. g k.1)
parsed_iff parse_xml r true document message false h = (λ k. (refl, h), λ k. refl)
parsed_iff parse_xml r false document message wanted h = (λ k. cc, λ k. cc)

-- The result is a success exactly if the exchange was OK with no exception and an accepted status, and,
-- where a document is asked for, the message is not empty and the parser accepts it; that document is then
-- the result's, which has none where none is asked for.
pub verdict_success_iff :
    (parse_xml : Text → Option Node) (r : PocoResult) (conditions : EvaluationConditions)
    → ((verdict parse_xml r conditions).success ≡ true) ↔ (
        IsAccepted r conditions
        × HasDocument parse_xml r conditions.parse_message_into_xml
            (verdict parse_xml r conditions).document)
unfolding verdict
verdict_success_iff parse_xml r conditions =
    let (to, from) = check_success_iff r conditions in
    let checked = check_accepted_outcomes no_success r conditions in
    let (f, g) =
      parsed_iff parse_xml r checked.success checked.document checked.error_message
        conditions.parse_message_into_xml (check-document r conditions) in
    (λ h. (to (f h).0, (f h).1), λ h. g (from h.0, h.1))
