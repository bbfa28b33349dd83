-- ===== src/Rapid/Delimited/Reading.antt =====
-- The merging loop over nested text: what it holds after an opening bracket, a comma and a closing one.
use abb_librws.Base.{
  ℕ, suc, ◌<◌, ◌≡◌, ◌≢◌, refl, sym, ap, ◌∙◌, Text, codes, is_empty, if◌then◌else◌, List, [], ◌∷◌,
  ◌++◌, append_assoc, append-nil, arith, All-append,
}
use abb_librws.Rapid.Delimited.{uint_range, Merge, count_brackets, merge_piece}
use abb_librws.Rapid.Delimited.Merging.{
  run, IsCommaless, IsPlain, IsPlain-IsCommaless, run_comma, run_end, count_brackets-append,
  count_brackets_nil, count_brackets_open, count_brackets_close, count_brackets_plain,
}

-- In the state `m`, with the bytes `cur` of the piece read so far, the loop stands `d` brackets deep.
pub record At (d : ℕ) (m : Merge) (cur : Text) : Type 0 where
  pub commaless : IsCommaless cur
  pub depth : count_brackets m.counter cur ≡ d

-- Reading `p` leads from one state to another, and finishes no value.
pub record Reads (m : Merge) (cur p : Text) (m' : Merge) (cur' : Text) : Type 0 where
  pub runs : (t : Text) → run m (cur ++ (p ++ t)) ≡ run m' (cur' ++ t)
  pub values : m'.values ≡ m.values
  pub text : m'.pending ++ cur' ≡ m.pending ++ (cur ++ p)

abbrev pub Lands : ℕ → Merge → Text → Text → Type 0
Lands d m cur p = (m' : Merge) × (cur' : Text) × Reads m cur p m' cur' × At d m' cur' × (cur' ≢ [])

Reads-append :
    {m : Merge} {cur p : Text} {m' : Merge} {cur' q : Text} {n : Merge} {last : Text}
    → Reads m cur p m' cur'
    → Reads m' cur' q n last
    → Reads m cur (p ++ q) n last
Reads-append {m} {cur} {p} {m'} {cur'} {q} {n} {last} r s = record {
  runs = λ t. ap (λ x. run m (cur ++ x)) (append_assoc p q t) ∙ r.runs (q ++ t) ∙ s.runs t;
  values = s.values ∙ r.values;
  text =
      s.text
      ∙ sym (append_assoc m'.pending cur' q)
      ∙ ap (λ x. x ++ q) r.text
      ∙ append_assoc m.pending (cur ++ p) q
      ∙ ap (λ x. m.pending ++ x) (append_assoc cur p q);
}

-- One text after another.
pub Lands-append :
    {d e : ℕ} {m : Merge} {cur p q : Text}
    → Lands d m cur p
    → ((m' : Merge) (cur' : Text) → At d m' cur' → cur' ≢ [] → Lands e m' cur' q)
    → Lands e m cur (p ++ q)
Lands-append (m1, cur1, r1, a1, n1) next =
    let (m2, cur2, r2, a2, n2) = next m1 cur1 a1 n1 in (m2, cur2, Reads-append r1 r2, a2, n2)

Reads-refl : (m : Merge) (cur : Text) → Reads m cur [] m cur
Reads-refl m cur = record {
  runs = λ t. refl;
  values = refl;
  text = ap (λ x. m.pending ++ x) (sym (append-nil cur));
}

append-ne-nil : (s : Text) (c : ℕ) (t : Text) → s ++ c ∷ t ≢ []
append-ne-nil [] c t e = cc
append-ne-nil (x ∷ s) c t e = cc

-- Bytes that are no commas are added to the piece.
step_in :
    (d e : ℕ) (m : Merge) (cur : Text) (c : ℕ) (p : Text)
    → At d m cur
    → IsCommaless (c ∷ p)
    → count_brackets d (c ∷ p) ≡ e
    → Lands e m cur (c ∷ p)
step_in d e m cur c p a h k = (
  m,
  cur ++ c ∷ p,
  record { runs = λ t. ap (run m) (sym (append_assoc cur (c ∷ p) t)); values = refl; text = refl },
  record {
    commaless = All-append _ cur (c ∷ p) a.commaless h;
    depth =
        count_brackets-append m.counter cur (c ∷ p)
        ∙ ap (λ n. count_brackets n (c ∷ p)) a.depth
        ∙ k;
  },
  append-ne-nil cur c p,
)

pub Lands-plain :
    (d : ℕ) (m : Merge) (cur p : Text)
    → At d m cur
    → d < uint_range
    → p ≢ []
    → IsPlain p
    → Lands d m cur p
Lands-plain d m cur [] a b n h = absurd (n refl)
Lands-plain d m cur (c ∷ p) a b n h =
    step_in d d m cur c p a (IsPlain-IsCommaless (c ∷ p) h) (count_brackets_plain d (c ∷ p) b h)

pub Lands-open :
    (d : ℕ) (m : Merge) (cur : Text)
    → At d m cur
    → suc d < uint_range
    → Lands (suc d) m cur (codes "[")
Lands-open d m cur a b = step_in d (suc d) m cur b'[' [] a (refl, tt) (count_brackets_open d b)

pub Lands-close :
    (d : ℕ) (m : Merge) (cur : Text)
    → At (suc d) m cur
    → suc d < uint_range
    → Lands d m cur (codes "]")
Lands-close d m cur a b = step_in (suc d) d m cur b']' [] a (refl, tt) (count_brackets_close d b)

-- The piece that a comma ends inside brackets is kept, with the comma, for the value around it.
merge_inside :
    (d : ℕ) (m : Merge) (cur : Text)
    → count_brackets m.counter cur ≡ suc d
    → cur ≢ []
    → merge_piece m cur
      ≡ record { values = m.values; pending = m.pending ++ (cur ++ codes ","); counter = suc d }
unfolding merge_piece
merge_inside d m [] e n = absurd (n refl)
merge_inside d m (c ∷ s) e n = rw e (ground arith)

Reads-comma :
    (d : ℕ) (m : Merge) (cur : Text)
    → At (suc d) m cur
    → suc d < uint_range
    → cur ≢ []
    → (m' : Merge) × Reads m cur (codes ",") m' [] × At (suc d) m' []
Reads-comma d m cur a b n = (
  record { values = m.values; pending = m.pending ++ (cur ++ codes ","); counter = suc d },
  record {
    runs = λ t. run_comma m cur t a.commaless ∙ ap (λ x. run x t) (merge_inside d m cur a.depth n);
    values = refl;
    text = append-nil (m.pending ++ (cur ++ codes ","));
  },
  record { commaless = tt; depth = count_brackets_nil (suc d) b },
)

-- A comma inside brackets, and what follows it.
pub Lands-comma :
    (d : ℕ) (m : Merge) (cur q : Text)
    → At (suc d) m cur
    → suc d < uint_range
    → cur ≢ []
    → ((m' : Merge) → At (suc d) m' [] → Lands (suc d) m' [] q)
    → Lands (suc d) m cur (codes "," ++ q)
Lands-comma d m cur q a b n next =
    let (m1, r1, a1) = Reads-comma d m cur a b n in
    let (m2, cur2, r2, a2, n2) = next m1 a1 in (m2, cur2, Reads-append r1 r2, a2, n2)

pub Lands-nil : {d : ℕ} {m : Merge} {cur : Text} → At d m cur → cur ≢ [] → Lands d m cur []
Lands-nil {m = m} {cur = cur} a n = (m, cur, Reads-refl m cur, a, n)

-- Between two values: nothing is pending, and no bracket is open.
abbrev pub top : List Text → Merge
top values = record { values = values; pending = []; counter = 0 }

finish_value :
    (values : List Text) (pending piece : Text)
    → (if is_empty pending
        then record { values = values ++ piece ∷ []; pending = pending; counter = 0 }
        else record { values = values ++ (pending ++ piece) ∷ []; pending = []; counter = 0 })
      ≡ top (values ++ (pending ++ piece) ∷ [])
finish_value values [] piece = refl
finish_value values (c ∷ s) piece = refl

-- The piece that ends outside all brackets completes a value.
pub merge_outside :
    (values : List Text) (m : Merge) (cur p : Text)
    → Reads (top values) [] p m cur
    → At 0 m cur
    → cur ≢ []
    → merge_piece m cur ≡ top (values ++ p ∷ [])
unfolding merge_piece
merge_outside values m [] p r a n = absurd (n refl)
merge_outside values m (c ∷ s) p r a n =
    rw (a.depth, r.values)
      (finish_value values m.pending (c ∷ s) ∙ ap (λ x. top (values ++ x ∷ [])) r.text)

pub top-At : (values : List Text) → At 0 (top values) []
top-At values = record { commaless = tt; depth = count_brackets_nil 0 (omega arith) }

-- A value and what follows it: a comma, or the end of the input.
pub run_value_end :
    (values : List Text) (p : Text)
    → Lands 0 (top values) [] p
    → run (top values) p ≡ top (values ++ p ∷ [])
run_value_end values p (m, cur, r, a, n) =
    ap (run (top values)) (sym (append-nil p))
    ∙ r.runs []
    ∙ ap (run m) (append-nil cur)
    ∙ run_end m cur a.commaless
    ∙ merge_outside values m cur p r a n

pub run_value_comma :
    (values : List Text) (p t : Text)
    → Lands 0 (top values) [] p
    → run (top values) (p ++ b',' ∷ t) ≡ run (top (values ++ p ∷ [])) t
run_value_comma values p t (m, cur, r, a, n) =
    r.runs (b',' ∷ t)
    ∙ run_comma m cur t a.commaless
    ∙ ap (λ x. run x t) (merge_outside values m cur p r a n)
