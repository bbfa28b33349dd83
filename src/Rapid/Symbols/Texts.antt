-- ===== src/Rapid/Symbols/Texts.antt =====
-- extractDelimitedSubstrings of a record's text gives the texts of its components.
use abb_librws.Base.{
  ℕ, suc, ◌+◌, ◌<◌, ◌≡◌, ◌≢◌, refl, ap, ◌∙◌, Text, codes, List, [], ◌∷◌, ◌++◌, split, append_assoc,
  append-nil, arith, some, Bool, true, false, All-append,
}
use Prim.Native.Nat.{max}
use abb_librws.Rapid.Atoms.{Floats, construct_bool, construct_num, construct_dnum, construct_string}
use abb_librws.Rapid.Delimited.{Merge, uint_range, extract_delimited_substrings}
use abb_librws.Rapid.Delimited.Brackets.{strip_brackets_outer}
use abb_librws.Rapid.Delimited.Merging.{run, IsPlain}
use abb_librws.Rapid.Delimited.Reading.{
  At, Lands, top, top-At, Lands-append, Lands-nil, Lands-plain, Lands-open, Lands-close,
  Lands-comma, run_value_end, run_value_comma,
}
use abb_librws.Rapid.Symbols.{
  Symbol, bool, num, dnum, string, struct, Components, nil, cons, construct, construct_all,
  construct_rest,
}

-- How deep the records are nested.
abbrev mutual
  pub depth : {Num Dnum : Type 0} → Symbol Num Dnum → ℕ
  depth (bool b) = 0
  depth (num x) = 0
  depth (dnum x) = 0
  depth (string s) = 0
  depth (struct n cs) = suc (depth_all cs)

  pub depth_all : {Num Dnum : Type 0} → Components Num Dnum → ℕ
  depth_all nil = 0
  depth_all (cons s cs) = max (depth s) (depth_all cs)

-- A text that is one value: not empty, with no comma and no bracket.
abbrev pub IsWord : Text → Type 0
IsWord t = (t ≢ []) × IsPlain t

-- The atomic values have texts that are words.
abbrev mutual
  pub IsClean : {Num Dnum : Type 0} → Floats Num Dnum → Symbol Num Dnum → Type 0
  IsClean fl (bool b) = Unit
  IsClean fl (num x) = IsWord (construct_num fl x)
  IsClean fl (dnum x) = IsWord (construct_dnum fl x)
  IsClean fl (string s) = IsPlain s
  IsClean fl (struct n cs) = AllClean fl cs

  pub AllClean : {Num Dnum : Type 0} → Floats Num Dnum → Components Num Dnum → Type 0
  AllClean fl nil = Unit
  AllClean fl (cons s cs) = IsClean fl s × AllClean fl cs

construct_bool-IsWord : (b : Bool) → IsWord (construct_bool b)
unfolding construct_bool
construct_bool-IsWord true = (λ e. cc, (refl, (refl, (refl, (refl, tt)))))
construct_bool-IsWord false = (λ e. cc, (refl, (refl, (refl, (refl, (refl, tt))))))

construct_string-IsWord : (s : Text) → IsPlain s → IsWord (construct_string s)
unfolding construct_string
construct_string-IsWord s h = (λ e. cc, (refl, All-append _ s (codes "\"") h (refl, tt)))

-- The texts of the components.
unfoldable pub texts : {Num Dnum : Type 0} → Floats Num Dnum → Components Num Dnum → List Text
texts fl nil = []
texts fl (cons s cs) = construct fl s ∷ texts fl cs

module _ {Num Dnum : Type 0} (fl : Floats Num Dnum) where
  mutual
    unfolding construct

    -- At any depth, the loop takes in the text of a value and stays as deep as before.
    pub Lands-construct :
        (s : Symbol Num Dnum) (d : ℕ) (m : Merge) (cur : Text)
        → IsClean fl s
        → d + depth s < uint_range
        → At d m cur
        → Lands d m cur (construct fl s)
    Lands-construct (bool b) d m cur c h a =
        let w = construct_bool-IsWord b in Lands-plain d m cur _ a (omega arith) w.0 w.1
    Lands-construct (num x) d m cur c h a = Lands-plain d m cur _ a (omega arith) c.0 c.1
    Lands-construct (dnum x) d m cur c h a = Lands-plain d m cur _ a (omega arith) c.0 c.1
    Lands-construct (string s) d m cur c h a =
        let w = construct_string-IsWord s c in Lands-plain d m cur _ a (omega arith) w.0 w.1
    Lands-construct (struct n cs) d m cur c h a =
        Lands-append (Lands-open d m cur a (omega arith)) λ m1 cur1 a1 n1.
          Lands-append (Lands-construct_all cs d m1 cur1 c (omega arith) a1 n1)
            λ m2 cur2 a2 n2. Lands-close d m2 cur2 a2 (omega arith)

    Lands-construct_all :
        (cs : Components Num Dnum) (d : ℕ) (m : Merge) (cur : Text)
        → AllClean fl cs
        → suc d + depth_all cs < uint_range
        → At (suc d) m cur
        → cur ≢ []
        → Lands (suc d) m cur (construct_all fl cs)
    Lands-construct_all nil d m cur c h a n = Lands-nil a n
    Lands-construct_all (cons s cs) d m cur c h a n =
        Lands-append (Lands-construct s (suc d) m cur c.0 (omega arith) a)
          λ m1 cur1 a1 n1. Lands-construct_rest cs d m1 cur1 c.1 (omega arith) a1 n1

    Lands-construct_rest :
        (cs : Components Num Dnum) (d : ℕ) (m : Merge) (cur : Text)
        → AllClean fl cs
        → suc d + depth_all cs < uint_range
        → At (suc d) m cur
        → cur ≢ []
        → Lands (suc d) m cur (construct_rest fl cs)
    Lands-construct_rest nil d m cur c h a n = Lands-nil a n
    Lands-construct_rest (cons s cs) d m cur c h a n =
        Lands-comma d m cur _ a (omega arith) n λ m0 a0.
          Lands-append (Lands-construct s (suc d) m0 [] c.0 (omega arith) a0)
            λ m1 cur1 a1 n1. Lands-construct_rest cs d m1 cur1 c.1 (omega arith) a1 n1

  Lands-top :
      (s : Symbol Num Dnum) (values : List Text)
      → IsClean fl s
      → depth s < uint_range
      → Lands 0 (top values) [] (construct fl s)
  Lands-top s values c h = Lands-construct s 0 (top values) [] c (omega arith) (top-At values)

  -- Outside all brackets each component's text becomes a value of its own.
  run-construct_rest :
      (s : Symbol Num Dnum) (cs : Components Num Dnum) (values : List Text)
      → IsClean fl s
      → AllClean fl cs
      → depth s < uint_range
      → depth_all cs < uint_range
      → run (top values) (construct fl s ++ construct_rest fl cs)
        ≡ top (values ++ construct fl s ∷ texts fl cs)
  unfolding construct texts
  run-construct_rest s nil values c cs' h hs =
      ap (run (top values)) (append-nil (construct fl s))
      ∙ run_value_end values (construct fl s) (Lands-top s values c h)
  run-construct_rest s (cons s' cs) values c cs' h hs =
      run_value_comma values (construct fl s) _ (Lands-top s values c h)
      ∙ run-construct_rest s' cs (values ++ construct fl s ∷ []) cs'.0 cs'.1 (omega arith)
          (omega arith)
      ∙ ap top (append_assoc values (construct fl s ∷ []) (texts fl (cons s' cs)))

  -- Whatever is nested inside, the substrings of a record's text are the texts of its components.
  pub extract-construct :
      (n : Text) (cs : Components Num Dnum)
      → AllClean fl cs
      → depth_all cs < uint_range
      → extract_delimited_substrings (construct fl (struct n cs)) ≡ some (texts fl cs)
  unfolding extract_delimited_substrings construct texts
  extract-construct n nil c h =
      rw (strip_brackets_outer [], extract_delimited_substrings) (unfold split in refl)
  extract-construct n (cons s cs) c h =
      rw (strip_brackets_outer (construct_all fl (cons s cs)), extract_delimited_substrings)
        (ap (λ m. some m.values) (run-construct_rest s cs [] c.0 c.1 (omega arith) (omega arith)))
