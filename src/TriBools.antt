-- ===== src/TriBools.antt =====
-- TriBool, from include/abb_librws/rws_common.h
use abb_librws.Base.{Bool, true, false, not, Text, codes, if◌then◌else◌}

-- TriBool::Values, of which an object holds one
pub data TriBool : Type 0 where
  unknown_value true_value false_value : TriBool

-- The constructor from a bool, and the assignment of one
unfoldable pub tri_of : Bool → TriBool
tri_of true = true_value
tri_of false = false_value

-- operator==, of two objects and of an object and a value
unfoldable pub tri_eq : TriBool → TriBool → Bool
tri_eq unknown_value unknown_value = true
tri_eq true_value true_value = true
tri_eq false_value false_value = true
tri_eq _ _ = false

-- operator!=
unfoldable pub tri_ne : TriBool → TriBool → Bool
tri_ne a b = not (tri_eq a b)

-- TriBool::isUnknown
unfoldable pub is_unknown : TriBool → Bool
is_unknown value = tri_eq value unknown_value

-- TriBool::isTrue
unfoldable pub is_true : TriBool → Bool
is_true true_value = true
is_true _ = false

-- TriBool::isFalse
unfoldable pub is_false : TriBool → Bool
is_false value = tri_eq value false_value

-- TriBool::toString, which operator<< inserts
unfoldable pub tri_text : TriBool → Text
tri_text value =
    if is_unknown value
    then codes "unknown"
    else if is_true value
    then codes "true"
    else codes "false"
