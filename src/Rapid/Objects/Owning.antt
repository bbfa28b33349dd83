-- ===== src/Rapid/Objects/Owning.antt =====
-- An object whose pointers are those to its own fields behaves as the tree of its fields.
use abb_librws.Base.{
  ℕ, zero, suc, ◌+◌, ◌-◌, ◌==◌, ==_refl, Bool, true, false, Bool-cases, inl, inr, Text, codes,
  length, List, [], ◌∷◌, ◌++◌, Option, none, some, ◌≡◌, refl, ap, sym, ◌∙◌, arith,
}
use mathlib.Core.Option.{map}
use abb_librws.Rapid.Atoms.{Floats, Parsed, returned, threw}
use abb_librws.Rapid.Delimited.{extract_delimited_substrings}
use abb_librws.Rapid.Symbols.{
  Symbol, struct, Components, nil, cons, size, within, and_then, construct, construct_all, parse,
  parse_all, parse_substrings,
}
use abb_librws.Rapid.Symbols.Shapes.{object_of}
use abb_librws.Rapid.Records.{all_of}
use abb_librws.Rapid.Objects.{
  Memory, get_elem?, set_elem, pointers, place, default_object, write, components_text, object_text,
  parsed_component, parse_components, parse_into_components, object_parse,
}

abbrev pub has_thrown {ℓ} : {A : Type ℓ} → Parsed A → Bool
has_thrown (returned a) = false
has_thrown (threw a) = true

has_thrown-within :
    {A B : Type 0} (f : A → B) (p : Parsed A) → has_thrown (within f p) ≡ has_thrown p
has_thrown-within f (returned a) = refl
has_thrown-within f (threw a) = refl

length-pointers : (id i n : ℕ) → length (pointers id i n) ≡ n
length-pointers id i zero = refl
length-pointers id i (suc n) = ap suc (length-pointers id (suc i) n)

module _ {Num Dnum : Type 0} where
  -- The pointers of the object are those to its own fields.
  abbrev pub IsOwning : Memory Num Dnum → ℕ → Type 0
  IsOwning memory id = (memory id).components ≡ pointers id 0 (length (memory id).fields)

  get_elem?-append :
      (before rest : List (Symbol Num Dnum)) (s : Symbol Num Dnum)
      → get_elem? (before ++ s ∷ rest) (length before) ≡ some s
  get_elem?-append [] rest s = refl
  get_elem?-append (b ∷ before) rest s = get_elem?-append before rest s

  set_elem-append :
      (before rest : List (Symbol Num Dnum)) (s t : Symbol Num Dnum)
      → set_elem (before ++ s ∷ rest) (length before) t ≡ before ++ t ∷ rest
  set_elem-append [] rest s t = refl
  set_elem-append (b ∷ before) rest s t = ap (λ r. b ∷ r) (set_elem-append before rest s t)

  append-assoc_one :
      (before : List (Symbol Num Dnum)) (s : Symbol Num Dnum) (rest : List (Symbol Num Dnum))
      → before ++ s ∷ rest ≡ (before ++ s ∷ []) ++ rest
  append-assoc_one [] s rest = refl
  append-assoc_one (b ∷ before) s rest = ap (λ r. b ∷ r) (append-assoc_one before s rest)

  length-append_one :
      (before : List (Symbol Num Dnum)) (s : Symbol Num Dnum)
      → length (before ++ s ∷ []) ≡ suc (length before)
  length-append_one [] s = refl
  length-append_one (b ∷ before) s = ap suc (length-append_one before s)

  write-fields :
      (memory : Memory Num Dnum) (id i : ℕ) (s : Symbol Num Dnum)
      → (write (record { object = id; field = i }) s memory id).fields
        ≡ set_elem (memory id).fields i s
  unfolding write place
  write-fields memory id i s = rw (==_refl id) refl

  pub write-other :
      (memory : Memory Num Dnum) (id other i : ℕ) (s : Symbol Num Dnum)
      → (other == id) ≡ false
      → write (record { object = id; field = i }) s memory other ≡ memory other
  unfolding write place
  write-other memory id other i s h = rw h refl

  abbrev pub list_of : Components Num Dnum → List (Symbol Num Dnum)
  list_of nil = []
  list_of (cons s cs) = s ∷ list_of cs

  -- The components of a record, and none of an atomic value
  abbrev pub components_of : Symbol Num Dnum → Components Num Dnum
  components_of (struct n cs) = cs
  components_of _ = nil

  list_of-all_of : (fields : List (Symbol Num Dnum)) → list_of (all_of fields) ≡ fields
  list_of-all_of [] = refl
  list_of-all_of (s ∷ fields) = ap (λ r. s ∷ r) (list_of-all_of fields)

  size-all_of : (fields : List (Symbol Num Dnum)) → size (all_of fields) ≡ length fields
  size-all_of [] = refl
  size-all_of (s ∷ fields) = ap suc (size-all_of fields)

  written :
      (memory : Memory Num Dnum) (id : ℕ) (before rest : List (Symbol Num Dnum))
      (r s : Symbol Num Dnum)
      → (memory id).fields ≡ before ++ r ∷ rest
      → (write (record { object = id; field = length before }) s memory id).fields
        ≡ (before ++ s ∷ []) ++ rest
  written memory id before rest r s h =
      write-fields memory id (length before) s
      ∙ ap (λ fs. set_elem fs (length before) s) h
      ∙ set_elem-append before rest r s
      ∙ append-assoc_one before s rest

  -- The memory that an attempt at a parse leaves: in the fields of the object, after those before, what a parse
  -- of the tree leaves, no other object changed, and an exception exactly when the tree's parse throws.
  abbrev pub Leaves :
      ℕ
      → Memory Num Dnum
      → List (Symbol Num Dnum)
      → Parsed (Components Num Dnum)
      → Option (Parsed (Memory Num Dnum))
      → Type 0
  Leaves id memory before p o =
      (q : Parsed (Memory Num Dnum)) × (o ≡ some q)
      × ((object_of q id).fields ≡ before ++ list_of (object_of p))
      × ((other : ℕ) → (other == id) ≡ false → object_of q other ≡ memory other)
      × (has_thrown q ≡ has_thrown p)

  list_of-within :
      (s : Symbol Num Dnum) (p : Parsed (Components Num Dnum))
      → list_of (object_of (within (cons s) p)) ≡ s ∷ list_of (object_of p)
  list_of-within s (returned cs) = refl
  list_of-within s (threw cs) = refl

module _ {Num Dnum : Type 0} (fl : Floats Num Dnum) where
  components_text-pointers :
      (memory : Memory Num Dnum) (id i size : ℕ) (before rest : List (Symbol Num Dnum))
      → (memory id).fields ≡ before ++ rest
      → i ≡ length before
      → size ≡ i + length rest
      → components_text fl memory size i (pointers id i (length rest))
        ≡ some (construct_all fl (all_of rest))
  unfolding components_text construct
  components_text-pointers memory id i size before [] h k l = refl
  components_text-pointers memory id i size before (s ∷ []) h k l =
      let here : get_elem? (memory id).fields i ≡ some s =
        rw (h, k) (get_elem?-append before [] s) in
      let last : (i == size - 1) ≡ true = rw l (ground arith) in rw (here, last) refl
  components_text-pointers memory id i size before (s ∷ r ∷ rest) h k l =
      let here : get_elem? (memory id).fields i ≡ some s =
        rw (h, k) (get_elem?-append before (r ∷ rest) s) in
      let inner : (i == size - 1) ≡ false = rw l (ground arith) in
      let next : components_text fl memory size (suc i) (pointers id (suc i) (suc (length rest)))
          ≡ some (construct_all fl (all_of (r ∷ rest))) =
        components_text-pointers memory id (suc i) size (before ++ s ∷ []) (r ∷ rest)
          (h ∙ append-assoc_one before s (r ∷ rest)) (ap suc k ∙ sym (length-append_one before s))
          (omega arith) in
      rw (here, inner, next) refl

  -- The text of an object whose pointers are those to the fields of `source` is that of the tree of these fields.
  pub object_text-pointers :
      (memory : Memory Num Dnum) (id source : ℕ) (n : Text)
      → (memory id).components ≡ pointers source 0 (length (memory source).fields)
      → object_text fl memory id ≡ some (construct fl (struct n (all_of (memory source).fields)))
  unfolding object_text construct
  object_text-pointers memory id source n h =
      rw (h, length-pointers source 0 (length (memory source).fields))
        (ap (map (λ t. codes "[" ++ (t ++ codes "]"))) (
          components_text-pointers memory source 0 (length (memory source).fields) []
            (memory source).fields refl refl (omega arith)))

  -- RAPIDRecord::constructString, which goes through the pointers by index and puts a comma before it moves on,
  -- of an object whose pointers are those to its own fields, gives the text of the tree of its fields.
  pub object_text-IsOwning :
      (memory : Memory Num Dnum) (id : ℕ)
      → IsOwning memory id
      → object_text fl memory id
        ≡ some (construct fl (struct (memory id).record_type_name (all_of (memory id).fields)))
  object_text-IsOwning memory id h =
      object_text-pointers memory id id (memory id).record_type_name h

  Leaves-parsed_component :
      (memory : Memory Num Dnum) (id i : ℕ) (before rest : List (Symbol Num Dnum))
      (r : Symbol Num Dnum) (ts : List Text) (p : Parsed (Symbol Num Dnum))
      → (memory id).fields ≡ before ++ r ∷ rest
      → i ≡ length before
      → ((m : Memory Num Dnum) (s : Symbol Num Dnum)
          → (m id).fields ≡ (before ++ s ∷ []) ++ rest
          → Leaves id m
              (before ++ s ∷ [])
              (parse_all fl (all_of rest) ts)
              (parse_components fl (pointers id (suc i) (length rest)) ts m))
      → Leaves id memory before (and_then p (all_of rest) (parse_all fl (all_of rest) ts)) (
          parsed_component fl
            (record { object = id; field = i })
            p
            memory
            (parse_components fl (pointers id (suc i) (length rest)) ts))
  Leaves-parsed_component memory id i before rest r ts (returned s) h k next =
      let m = write (record { object = id; field = i }) s memory in
      let there : (m id).fields ≡ (before ++ s ∷ []) ++ rest =
        rw k (written memory id before rest r s h) in
      let (q, e, fields, others, thrown) = next m s there in
      (
        q,
        e,
        fields
            ∙ sym (append-assoc_one before s _)
            ∙ ap (λ x. before ++ x) (sym (list_of-within s (parse_all fl (all_of rest) ts))),
        (λ other o. others other o ∙ write-other memory id other i s o),
        thrown ∙ sym (has_thrown-within (cons s) (parse_all fl (all_of rest) ts)),
      )
  Leaves-parsed_component memory id i before rest r ts (threw s) h k next = (
    threw (write (record { object = id; field = i }) s memory),
    refl,
    rw k (written memory id before rest r s h)
        ∙ sym (append-assoc_one before s rest)
        ∙ ap (λ x. before ++ s ∷ x) (sym (list_of-all_of rest)),
    (λ other o. write-other memory id other i s o),
    refl,
  )

  Leaves-parse_components :
      (ts : List Text) (memory : Memory Num Dnum) (id i : ℕ) (before rest : List (Symbol Num Dnum))
      → (memory id).fields ≡ before ++ rest
      → i ≡ length before
      → Leaves id memory before
          (parse_all fl (all_of rest) ts)
          (parse_components fl (pointers id i (length rest)) ts memory)
  unfolding parse_components parse
  Leaves-parse_components ts memory id i before [] h k =
      (returned memory, refl, h, (λ other o. refl), refl)
  Leaves-parse_components [] memory id i before (r ∷ rest) h k = (
    returned memory,
    refl,
    h ∙ ap (λ x. before ++ r ∷ x) (sym (list_of-all_of rest)),
    (λ other o. refl),
    refl,
  )
  Leaves-parse_components (t ∷ ts) memory id i before (r ∷ rest) h k =
      let here : get_elem? (memory id).fields i ≡ some r =
        rw (h, k) (get_elem?-append before rest r) in
      rw here (
        Leaves-parsed_component memory id i before rest r ts (parse fl r t) h k (λ m s l.
          Leaves-parse_components ts m id (suc i) (before ++ s ∷ []) rest l
            (ap suc k ∙ sym (length-append_one before s))))

  -- What a parse makes of the tree of some fields
  abbrev pub parsed_tree : Text → List (Symbol Num Dnum) → Text → Parsed (Symbol Num Dnum)
  parsed_tree n fields t = parse fl (struct n (all_of fields)) t

  abbrev pub parsed_fields : Text → List (Symbol Num Dnum) → Text → List (Symbol Num Dnum)
  parsed_fields n fields t = list_of (components_of (object_of (parsed_tree n fields t)))

  components_of-within :
      (n : Text) (p : Parsed (Components Num Dnum))
      → components_of (object_of (within (struct n) p)) ≡ object_of p
  components_of-within n (returned cs) = refl
  components_of-within n (threw cs) = refl

  -- A parse through pointers to the fields of `source` changes these fields as a parse of their tree does.
  abbrev pub ParsesAs :
      Memory Num Dnum → ℕ → Parsed (Symbol Num Dnum) → Option (Parsed (Memory Num Dnum)) → Type 0
  ParsesAs memory source tree o =
      (q : Parsed (Memory Num Dnum)) × (o ≡ some q)
      × ((object_of q source).fields ≡ list_of (components_of (object_of tree)))
      × ((other : ℕ) → (other == source) ≡ false → object_of q other ≡ memory other)
      × (has_thrown q ≡ has_thrown tree)

  ParsesAs-substrings :
      (memory : Memory Num Dnum) (source : ℕ) (n : Text) (o : Option (List Text))
      → ParsesAs memory source
          (parse_substrings n
            (all_of (memory source).fields)
            o
            (parse_all fl (all_of (memory source).fields)))
          (parse_into_components fl (pointers source 0 (length (memory source).fields)) memory o)
  ParsesAs-substrings memory source n none =
      (threw memory, refl, sym (list_of-all_of (memory source).fields), (λ other o. refl), refl)
  ParsesAs-substrings memory source n (some ts) =
      let fields = (memory source).fields in
      let sized = size-all_of fields in
      let counted = length-pointers source 0 (length fields) in
      elim (Bool-cases (length fields == length ts)) [
        | inl fits ↦
            let (q, e, left, others, thrown) =
              Leaves-parse_components ts memory source 0 [] fields refl refl in
            rw (sized, counted, fits)
              (
                q,
                e,
                left ∙ ap list_of (sym (components_of-within n (parse_all fl (all_of fields) ts))),
                others,
                thrown ∙ sym (has_thrown-within (struct n) (parse_all fl (all_of fields) ts)),
              )
        | inr differs ↦
            rw (sized, counted, differs)
              (returned memory, refl, sym (list_of-all_of fields), (λ other o. refl), refl)
      ]

  pub object_parse-pointers :
      (memory : Memory Num Dnum) (id source : ℕ) (n t : Text)
      → (memory id).components ≡ pointers source 0 (length (memory source).fields)
      → ParsesAs memory source
          (parsed_tree n (memory source).fields t)
          (object_parse fl memory id t)
  unfolding object_parse parse
  object_parse-pointers memory id source n t h =
      rw h (ParsesAs-substrings memory source n (extract_delimited_substrings t))

  -- RAPIDRecord::parseString, which parses each component through its pointer in turn, of an object whose
  -- pointers are those to its own fields, leaves in them what a parse of the tree of the fields leaves in its
  -- components, throws exactly when that parse throws, and leaves every other object as it is.
  pub object_parse-IsOwning :
      (memory : Memory Num Dnum) (id : ℕ) (t : Text)
      → IsOwning memory id
      → (q : Parsed (Memory Num Dnum)) × (object_parse fl memory id t ≡ some q)
        × ((object_of q id).fields
            ≡ parsed_fields (memory id).record_type_name (memory id).fields t)
        × ((other : ℕ) → (other == id) ≡ false → object_of q other ≡ memory other)
        × (has_thrown q
            ≡ has_thrown (parsed_tree (memory id).record_type_name (memory id).fields t))
  object_parse-IsOwning memory id t h =
      object_parse-pointers memory id id (memory id).record_type_name t h

module _ {Num Dnum : Type 0} where
  -- An object that a default constructor has made owns its components.
  pub default_object-IsOwning :
      (memory : Memory Num Dnum) (id : ℕ) (n : Text) (fields : List (Symbol Num Dnum))
      → IsOwning (place id (default_object id n fields) memory) id
  unfolding place default_object
  default_object-IsOwning memory id n fields = rw (==_refl id) refl
