-- ===== src/Interface/Configuration/Read.antt =====
-- What reading an instance by a chain of tests makes of its attributes, if no attribute has two titles.
pub mod Joints
use abb_librws.Base.{
  ◌≡◌, ◌≢◌, refl, sym, ap, subst, ◌∙◌, bool_cases, bool_eq, then_is, else_is, ◌⊎◌, inl, inr, Text,
  is_empty, text_eq, text_eq_sound, text_eq_refl, Bool, true, false, ◌||◌, List, [], ◌∷◌,
  if◌then◌else◌, Option, none, some, All, arith,
}
use mathlib.Core.Option.{map}
use abb_librws.Xml.{Node}
use abb_librws.Interface.Configuration.{
  Branch, is_titled, value_of, required, input, take_branch, and_then, read_attributes,
  read_instances,
}

-- An attribute has no two titles, as every XML attribute stands in an element once.
abbrev pub HasOneTitle : Node → Type 0
HasOneTitle attribute =
    (t u : Text) → is_titled t attribute ≡ true → is_titled u attribute ≡ true → t ≡ u

abbrev pub titled_branch : {A : Type 0} → Text → List (Branch A) → Bool
titled_branch title [] = false
titled_branch title ((t, set) ∷ rest) = text_eq t title || titled_branch title rest

and_then-some :
    {A : Type 0} (o : Option A) (f : A → Option A) (b : A)
    → and_then o f ≡ some b
    → (a : A) × (o ≡ some a) × (f a ≡ some b)
and_then-some none f b e = absurd (ground arith)
and_then-some (some a) f b e = (a, refl, e)

-- The laws of the branches: a field after a branch that did not throw
module _ {A V : Type 0} (field : A → V) where
  pub required_field :
      (set : Text → A → A) (X : Text → A → V)
      → ((v : Text) (a : A) → field (set v a) ≡ X v a)
      → (v : Text) (a b : A) → required set v a ≡ some b
      → field b ≡ X v a
  required_field set X h [] a b e = absurd (ground arith)
  required_field set X h (c ∷ v) a b e =
      let same : set (c ∷ v) a ≡ b = cc in ap field (sym same) ∙ h (c ∷ v) a

  pub input_field :
      {N : Type 0} (read : Text → Option N) (set : N → A → A) (X : Text → A → V)
      → ((v : Text) (n : N) (a : A) → read v ≡ some n → field (set n a) ≡ X v a)
      → (v : Text) (a b : A) → input read set v a ≡ some b
      → field b ≡ X v a
  input_field {N = N} read set X h v a b e = of_read (read v) refl e
    where
      of_read : (o : Option N) → read v ≡ o → map (λ n. set n a) o ≡ some b → field b ≡ X v a
      of_read none r e = absurd (ground arith)
      of_read (some n) r e = let same : set n a ≡ b = cc in ap field (sym same) ∙ h v n a r

-- What the last attribute with the title says
abbrev pub last_value : {V : Type 0} → Text → (Text → V) → List Node → V → V
last_value title value [] old = old
last_value title value (attribute ∷ rest) old =
    last_value title value rest
      (if is_titled title attribute then value (value_of attribute) else old)

module _ {A V : Type 0} (field : A → V) (title : Text) (value : Text → V) where
  -- A branch leaves this value in the field if it has the title, and keeps the field if not.
  abbrev pub IsBranchOf : Branch A → Type 0
  IsBranchOf (t, set) =
      (v : Text) (a b : A)
      → set v a ≡ some b
      → field b ≡ (if text_eq t title then value v else field a)

  same_test :
      (t : Text) (attribute : Node)
      → is_titled t attribute ≡ true
      → HasOneTitle attribute
      → text_eq t title ≡ is_titled title attribute
  same_test t attribute h one =
      bool_eq (text_eq t title) (is_titled title attribute)
        (λ e. subst (λ u. is_titled u attribute ≡ true) (text_eq_sound t title e) h)
        (λ e. subst (λ u. text_eq t u ≡ true) (one t title h e) (text_eq_refl t))

  not_titled :
      (t : Text) (attribute : Node) (m : Bool)
      → is_titled t attribute ≡ false
      → ((text_eq t title || m) ≡ true) ⊎ (is_titled title attribute ≡ false)
      → (m ≡ true) ⊎ (is_titled title attribute ≡ false)
  not_titled t attribute m h (inr is_not) = inr is_not
  not_titled t attribute m h (inl is_so) = elim (bool_cases (text_eq t title)) [
    | inl e ↦ inr (subst (λ u. is_titled u attribute ≡ false) (text_eq_sound t title e) h)
    | inr e ↦ inl (ground arith)
  ]

  take_branch-field :
      (branches : List (Branch A)) (attribute : Node) (a b : A)
      → All IsBranchOf branches
      → HasOneTitle attribute
      → (titled_branch title branches ≡ true) ⊎ (is_titled title attribute ≡ false)
      → take_branch branches attribute a ≡ some b
      → field b ≡ (if is_titled title attribute then value (value_of attribute) else field a)
  unfolding take_branch
  take_branch-field [] attribute a b h one (inl is_so) e = absurd (ground arith)
  take_branch-field [] attribute a b h one (inr is_not) e =
      let same : a ≡ b = cc in rw is_not (ap field (sym same))
  take_branch-field ((t, set) ∷ rest) attribute a b h one has e =
      elim (bool_cases (is_titled t attribute)) [
        | inl is_so ↦
            h.0 (value_of attribute) a b (then_is (is_titled t attribute) _ _ _ is_so e)
            ∙ ap (λ test. if test then value (value_of attribute) else field a)
                (same_test t attribute is_so one)
        | inr is_not ↦
            take_branch-field rest attribute a b h.1 one
              (not_titled t attribute (titled_branch title rest) is_not has)
              (else_is (is_titled t attribute) _ _ _ is_not e)
      ]

  -- After the loop, the field has what the last attribute with the title says.
  pub read_attributes-field :
      (branches : List (Branch A)) (attributes : List Node) (a b : A)
      → All IsBranchOf branches
      → titled_branch title branches ≡ true
      → All HasOneTitle attributes
      → read_attributes branches attributes a ≡ some b
      → field b ≡ last_value title value attributes (field a)
  unfolding read_attributes
  read_attributes-field branches [] a b h has one e = let same : a ≡ b = cc in ap field (sym same)
  read_attributes-field branches (attribute ∷ rest) a b h has one e =
      let (a', first, next) =
        and_then-some (take_branch branches attribute a) (read_attributes branches rest) b e in
      read_attributes-field branches rest a' b h has one.1 next
      ∙ ap (last_value title value rest)
          (take_branch-field branches attribute a a' h one.0 (inl has) first)

module _ {A : Type 0} where
  -- No branch that the attribute goes through throws.
  abbrev pub IsReadable : List (Branch A) → Node → Type 0
  IsReadable branches attribute =
      All
        (λ branch.
          is_titled branch.0 attribute ≡ true
          → (a : A) → (b : A) × (branch.1 (value_of attribute) a ≡ some b))
        branches

  take_branch_reads :
      (branches : List (Branch A)) (attribute : Node) (a : A)
      → IsReadable branches attribute
      → (b : A) × (take_branch branches attribute a ≡ some b)
  unfolding take_branch
  take_branch_reads [] attribute a h = (a, refl)
  take_branch_reads ((t, set) ∷ rest) attribute a h = elim (bool_cases (is_titled t attribute)) [
    | inl is_so ↦ let (b, e) = h.0 is_so a in (b, rw is_so e)
    | inr is_not ↦ let (b, e) = take_branch_reads rest attribute a h.1 in (b, rw is_not e)
  ]

  pub read_attributes_reads :
      (branches : List (Branch A)) (attributes : List Node) (a : A)
      → All (IsReadable branches) attributes
      → (b : A) × (read_attributes branches attributes a ≡ some b)
  unfolding read_attributes
  read_attributes_reads branches [] a h = (a, refl)
  read_attributes_reads branches (attribute ∷ rest) a h =
      let (a', e) = take_branch_reads branches attribute a h.0 in
      let (b, next) = read_attributes_reads branches rest a' h.1 in (b, rw e next)

  -- As many items on both sides, in this relation one by one
  abbrev pub Matches : (Node → A → Type 0) → List Node → List A → Type 0
  Matches Q [] [] = Unit
  Matches Q (n ∷ ns) (a ∷ as') = Q n a × Matches Q ns as'
  Matches Q _ _ = ⊥

  pub read_instances_reads :
      (read : Node → Option A) (Q : Node → A → Type 0) (instances : List Node)
      → All (λ n. (a : A) × (read n ≡ some a) × Q n a) instances
      → (as' : List A) × (read_instances read instances ≡ some as') × Matches Q instances as'
  unfolding read_instances
  read_instances_reads read Q [] h = ([], refl, tt)
  read_instances_reads read Q (n ∷ ns) h =
      let (a, e, q) = h.0 in
      let (as', next, qs) = read_instances_reads read Q ns h.1 in
      (a ∷ as', rw (e, next) refl, (q, qs))
