-- ===== src/Tests/Objects.antt =====
-- Objects in memory: a pos of two numbers at address 0, and a copy of it at address 1.
use abb_librws.Base.{ℕ, ◌==◌, false, codes, List, [], ◌∷◌, some, ◌≡◌, refl}
use abb_librws.Rapid.Atoms.{construct_num, Parsed}
use abb_librws.Rapid.Symbols.{Symbol, num, construct}
use abb_librws.Rapid.Symbols.Shapes.{object_of}
use abb_librws.Rapid.Objects.{Memory, place, default_object, object_text, object_parse}
use abb_librws.Rapid.Objects.Owning.{
  object_text-IsOwning, object_parse-IsOwning, default_object-IsOwning, parsed_fields, has_thrown,
  parsed_tree,
}
use abb_librws.Rapid.Objects.Copies.{after_copy, object_text-copy, object_parse-copy}
use abb_librws.Tests.Data.{digits}

abbrev fields : ℕ → ℕ → List (Symbol ℕ ℕ)
fields a b = num a ∷ num b ∷ []

abbrev empty : Memory ℕ ℕ
empty address = record { record_type_name = []; fields = []; components = [] }

abbrev memory : Memory ℕ ℕ
memory = place 0 (default_object 0 (codes "pos") (fields 1 2)) empty

object_text-IsOwning_example : object_text digits memory 0 ≡ some (codes "[1,2]")
unfolding place default_object construct construct_num
object_text-IsOwning_example =
    object_text-IsOwning digits memory 0
      (default_object-IsOwning empty 0 (codes "pos") (fields 1 2))

-- The copy's first number is set to 5, and its text still has the source's.
object_text-copy_example :
    object_text digits (after_copy memory 0 1 ((0, num 5) ∷ [])) 1 ≡ some (codes "[1,2]")
unfolding place default_object construct construct_num
object_text-copy_example =
    object_text-copy digits memory 0 1 (default_object-IsOwning empty 0 (codes "pos") (fields 1 2))
      refl ((0, num 5) ∷ [])

object_parse-IsOwning_example :
    (q : Parsed (Memory ℕ ℕ)) × (object_parse digits memory 0 (codes "[3,4]") ≡ some q)
    × ((object_of q 0).fields ≡ parsed_fields digits (codes "pos") (fields 1 2) (codes "[3,4]"))
    × ((other : ℕ) → (other == 0) ≡ false → object_of q other ≡ memory other)
    × (has_thrown q ≡ has_thrown (parsed_tree digits (codes "pos") (fields 1 2) (codes "[3,4]")))
unfolding place default_object
object_parse-IsOwning_example =
    object_parse-IsOwning digits memory 0 (codes "[3,4]")
      (default_object-IsOwning empty 0 (codes "pos") (fields 1 2))

object_parse-copy_example :
    (q : Parsed (Memory ℕ ℕ)) × (object_parse digits
        (after_copy memory 0 1 ((0, num 5) ∷ []))
        1
        (codes "[3,4]")
      ≡ some q)
    × ((object_of q 0).fields ≡ parsed_fields digits (codes "pos") (fields 1 2) (codes "[3,4]"))
    × (object_of q 1 ≡ after_copy memory 0 1 ((0, num 5) ∷ []) 1)
unfolding place default_object
object_parse-copy_example =
    object_parse-copy digits memory 0 1 (default_object-IsOwning empty 0 (codes "pos") (fields 1 2))
      refl ((0, num 5) ∷ []) (codes "[3,4]")
