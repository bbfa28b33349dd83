-- ===== src/Interface/Reports/Options.antt =====
-- The options of getPresentRobotWareOptions against the nodes that they are made of.
use abb_librws.Base.{ℕ, zero, suc, ◌*◌, ◌≡◌, refl, arith, List, [], ◌∷◌, Option, none, some}
use abb_librws.Xml.{Node}
use abb_librws.Interface.Reports.{RobotWareOptionInfo, text_of, pair_options}
use abb_librws.Base.{codes}

abbrev pub get_elem? {ℓ} : {A : Type ℓ} → List A → ℕ → Option A
get_elem? [] i = none
get_elem? (x ∷ xs) zero = some x
get_elem? (x ∷ xs) (suc i) = get_elem? xs i

-- The option that two nodes make, if both are there
abbrev option_of : Option Node → Option Node → Option RobotWareOptionInfo
option_of (some node) (some next) =
    some
      (record { name = text_of (codes "value") node; description = text_of (codes "value") next })
option_of (some node) none = none
option_of none _ = none

twice_suc : (i : ℕ) → 2 * suc i ≡ suc (suc (2 * i))
twice_suc i = omega arith

-- The i-th option is the one that the nodes 2i and 2i + 1 make, and there is none if one of them is missing.
pub pair_options_lem :
    (nodes : List Node) (i : ℕ)
    → get_elem? (pair_options nodes) i
      ≡ option_of (get_elem? nodes (2 * i)) (get_elem? nodes (suc (2 * i)))
unfolding pair_options
pair_options_lem [] i = refl
pair_options_lem (node ∷ []) zero = refl
pair_options_lem (node ∷ []) (suc i) = rw (twice_suc i) refl
pair_options_lem (node ∷ next ∷ rest) zero = refl
pair_options_lem (node ∷ next ∷ rest) (suc i) = rw (twice_suc i) (pair_options_lem rest i)
