-- ===== src/Client/Subscription/Form.antt =====
-- What the content of a subscription's request reads as, as the fields of a form.
use abb_librws.Base.{
  ℕ, zero, suc, ◌+◌, ◌%◌, ◌≡◌, ◌≢◌, refl, sym, ap, ◌∙◌, true, false, Text, codes, ◌==◌, ◌||◌,
  if◌then◌else◌, split, List, [], ◌∷◌, ◌++◌, append_assoc, All, All-append, ltb, Bool-cases, inl,
  inr, arith,
}
use Prim.Native.Nat.{◌/◌}
use mathlib.Core.List.{map}
use abb_librws.Client.Types.{SubscriptionResource, digits, decimal}
use abb_librws.Client.Subscription.{priority_number, subscription_entry, subscription_content}

-- Before and after the first delimiter
abbrev pub cut : ℕ → Text → Text × Text
cut d [] = ([], [])
cut d (c ∷ t) = let rest = cut d t in if c == d then ([], t) else (c ∷ rest.0, rest.1)

-- The fields of a form: its parts between `&`, each a name and a value around its first `=`
abbrev pub form_fields : Text → List (Text × Text)
form_fields t = map (cut 61) (split 38 t)

-- What the i-th subscription asks for
abbrev pub fields_from : ℕ → List SubscriptionResource → List (Text × Text)
fields_from i [] = []
fields_from i (r ∷ rest) =
    (codes "resources", decimal i)
    ∷ (decimal i, r.resource_uri)
    ∷ (decimal i ++ codes "-p", decimal (priority_number r.priority))
    ∷ fields_from (suc i) rest

abbrev pub Without : ℕ → Text → Type 0
Without d t = All (λ c. (c == d) ≡ false) t

split-before : (d : ℕ) (s t : Text) → Without d s → split d (s ++ d ∷ t) ≡ s ∷ split d t
unfolding split
split-before d [] t h = ground arith
split-before d (c ∷ s) t h = rw (h.0, split-before d s t h.1) refl

split-last : (d c : ℕ) (s : Text) → Without d (c ∷ s) → split d (c ∷ s) ≡ (c ∷ s) ∷ []
unfolding split
split-last d c [] h = rw h.0 refl
split-last d c (b ∷ s) h = rw (h.0, split-last d b s h.1) refl

split-whole : (d : ℕ) (t : Text) → Without d t → t ≢ [] → split d t ≡ t ∷ []
split-whole d [] h full = absurd (full refl)
split-whole d (c ∷ s) h full = split-last d c s h

append-ne : (s : Text) (c : ℕ) (t : Text) → s ++ c ∷ t ≢ []
append-ne [] c t = λ e. cc
append-ne (b ∷ s) c t = λ e. cc

cut-before : (d : ℕ) (s t : Text) → Without d s → cut d (s ++ d ∷ t) ≡ (s, t)
cut-before d [] t h = ground arith
cut-before d (c ∷ s) t h = rw (h.0, cut-before d s t h.1) refl

-- Neither delimiter is a digit.
digits-Without : (d fuel n : ℕ) → (ltb d 48 || ltb 57 d) ≡ true → Without d (digits fuel n)
unfolding digits
digits-Without d zero n h = tt
digits-Without d (suc fuel) n h = elim (Bool-cases (ltb n 10)) [
  | inl small ↦ rw small (ground arith, tt)
  | inr large ↦ rw large (
      All-append _ (digits fuel (n / 10)) ((48 + n % 10) ∷ []) (digits-Without d fuel (n / 10) h)
        (ground arith, tt))
]

decimal-Without : (d n : ℕ) → (ltb d 48 || ltb 57 d) ≡ true → Without d (decimal n)
unfolding decimal
decimal-Without d n h = digits-Without d (suc n) n h

-- Each of the three fields holds no `&` and no `=` before its own.
abbrev number_field : ℕ → Text
number_field i = codes "resources=" ++ decimal i

abbrev uri_field : ℕ → Text → Text
uri_field i uri = decimal i ++ 61 ∷ uri

abbrev priority_field : ℕ → ℕ → Text
priority_field i p = decimal i ++ codes "-p=" ++ decimal p

entry_in_fields :
    (i : ℕ) (r : SubscriptionResource)
    → subscription_entry i r
      ≡ number_field i
        ++ 38 ∷ (uri_field i r.resource_uri ++ 38 ∷ priority_field i (priority_number r.priority))
unfolding subscription_entry
entry_in_fields i r = simp (append_assoc) refl

number_field_lem :
    (i : ℕ)
    → (Without 38 (number_field i)) × (cut 61 (number_field i) ≡ (codes "resources", decimal i))
number_field_lem i = (
  All-append _ (codes "resources=") (decimal i)
      (refl, (refl, (refl, (refl, (refl, (refl, (refl, (refl, (refl, (refl, tt))))))))))
      (decimal-Without 38 i refl),
  cut-before 61 (codes "resources") (decimal i)
      (refl, (refl, (refl, (refl, (refl, (refl, (refl, (refl, (refl, tt))))))))),
)

uri_field_lem :
    (i : ℕ) (uri : Text)
    → Without 38 uri
    → (Without 38 (uri_field i uri)) × (cut 61 (uri_field i uri) ≡ (decimal i, uri))
uri_field_lem i uri h = (
  All-append _ (decimal i) (61 ∷ uri) (decimal-Without 38 i refl) (refl, h),
  cut-before 61 (decimal i) uri (decimal-Without 61 i refl),
)

priority_field-ne : (i p : ℕ) → priority_field i p ≢ []
priority_field-ne i p = λ e.
    append-ne (decimal i) 45 (codes "p=" ++ decimal p)
      (sym (append_assoc (decimal i) (codes "-p=") (decimal p)) ∙ e)

name_apart :
    (i p : ℕ)
    → decimal i ++ (codes "-p=" ++ decimal p) ≡ (decimal i ++ codes "-p") ++ 61 ∷ decimal p
name_apart i p = simp (append_assoc) refl

priority_field_lem :
    (i p : ℕ)
    → (Without 38 (priority_field i p))
      × (cut 61 (priority_field i p) ≡ (decimal i ++ codes "-p", decimal p))
priority_field_lem i p = (
  All-append _ (decimal i ++ codes "-p=") (decimal p)
      (All-append _ (decimal i) (codes "-p=") (decimal-Without 38 i refl)
        (refl, (refl, (refl, tt))))
      (decimal-Without 38 p refl),
  ap (cut 61) (append_assoc (decimal i) (codes "-p=") (decimal p) ∙ name_apart i p)
      ∙ cut-before 61 (decimal i ++ codes "-p") (decimal p)
          (All-append _ (decimal i) (codes "-p") (decimal-Without 61 i refl) (refl, (refl, tt))),
)

abbrev entry_fields : ℕ → SubscriptionResource → List (Text × Text)
entry_fields i r =
    (codes "resources", decimal i)
    ∷ (decimal i, r.resource_uri)
    ∷ (decimal i ++ codes "-p", decimal (priority_number r.priority))
    ∷ []

-- An entry that another one follows, and the last one
form_fields-entry :
    (i : ℕ) (r : SubscriptionResource) (rest : Text)
    → Without 38 r.resource_uri
    → form_fields (subscription_entry i r ++ codes "&" ++ rest)
      ≡ entry_fields i r ++ form_fields rest
form_fields-entry i r rest h =
    let (no_and_1, cut_1) = number_field_lem i in
    let (no_and_2, cut_2) = uri_field_lem i r.resource_uri h in
    let (no_and_3, cut_3) = priority_field_lem i (priority_number r.priority) in
    let whole : subscription_entry i r ++ codes "&" ++ rest
        ≡ number_field i
          ++ 38
            ∷ (uri_field i r.resource_uri
                ++ 38 ∷ (priority_field i (priority_number r.priority) ++ 38 ∷ rest)) =
      rw (entry_in_fields i r) (simp (append_assoc) refl) in
    rw
      (
        whole,
        split-before 38 (number_field i) _ no_and_1,
        split-before 38 (uri_field i r.resource_uri) _ no_and_2,
        split-before 38 (priority_field i (priority_number r.priority)) rest no_and_3,
        cut_1,
        cut_2,
        cut_3,
      )
      refl

form_fields-last :
    (i : ℕ) (r : SubscriptionResource)
    → Without 38 r.resource_uri
    → form_fields (subscription_entry i r) ≡ entry_fields i r
form_fields-last i r h =
    let (no_and_1, cut_1) = number_field_lem i in
    let (no_and_2, cut_2) = uri_field_lem i r.resource_uri h in
    let (no_and_3, cut_3) = priority_field_lem i (priority_number r.priority) in
    rw
      (
        entry_in_fields i r,
        split-before 38 (number_field i) _ no_and_1,
        split-before 38 (uri_field i r.resource_uri) _ no_and_2,
        split-whole 38 (priority_field i (priority_number r.priority)) no_and_3
            (priority_field-ne i (priority_number r.priority)),
        cut_1,
        cut_2,
        cut_3,
      )
      refl

-- The content of startSubscription's request, split at each & and each part cut at its first =,
-- gives for the resource of each number the field resources with the number, the field named by
-- the number with its URI, and the field named by the number and -p with its priority, in the
-- order of the resources, if no URI holds an &.
pub form_fields-subscription_content :
    (i : ℕ) (resources : List SubscriptionResource)
    → All (λ r. Without 38 r.resource_uri) resources
    → form_fields (subscription_content i resources) ≡ fields_from i resources
unfolding subscription_content split
form_fields-subscription_content i [] h = refl
form_fields-subscription_content i (r ∷ []) h = form_fields-last i r h.0
form_fields-subscription_content i (r ∷ s ∷ rest) h =
    form_fields-entry i r (subscription_content (suc i) (s ∷ rest)) h.0
    ∙ ap (λ l. entry_fields i r ++ l) (form_fields-subscription_content (suc i) (s ∷ rest) h.1)
