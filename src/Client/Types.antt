-- ===== src/Client/Types.antt =====
-- The structures of RWSClient, its state, and the actions that its methods are.
use abb_librws.Base.{
  ℕ, zero, suc, ◌+◌, ◌%◌, Bool, false, Text, ltb, if◌then◌else◌, List, [], ◌∷◌, ◌++◌, Option, none,
}
use Prim.Native.Nat.{◌/◌}
use abb_librws.Xml.{Node}
use abb_librws.Poco.Types.{PocoResult, Outcome, done, raised, other_exception}
use abb_librws.Poco.Work.{Client}

-- RWSResult
pub record RwsResult : Type 0 where
  pub success : Bool
  pub document : Option Node
  pub error_message : Text

abbrev pub no_success : RwsResult
no_success = record { success = false; document = none; error_message = [] }

-- EvaluationConditions
pub record EvaluationConditions : Type 0 where
  pub parse_message_into_xml : Bool
  pub accepted_outcomes : List ℕ

-- RAPIDResource
pub record RapidResource : Type 0 where
  pub task : Text
  pub module_name : Text
  pub name : Text

-- FileResource
pub record FileResource : Type 0 where
  pub filename : Text
  pub directory : Text

-- SubscriptionResources::Priority
pub data Priority : Type 0 where
  low medium high : Priority

-- SubscriptionResources::SubscriptionResource
pub record SubscriptionResource : Type 0 where
  pub resource_uri : Text
  pub priority : Priority

-- Coordinate
pub data Coordinate : Type 0 where
  base world tool wobj active : Coordinate

-- RWSClient: the POCOClient that it is, the log with the newest result first, and the group of the
-- subscription.
pub record RwsClient (Jar : Type 0) : Type 0 where
  pub poco : Client Jar
  pub log : List PocoResult
  pub subscription_group_id : Text

-- A method: it returns or throws, and leaves a new state.
abbrev pub R : Type 0 → Type 0 → Type 0
R Jar A = RwsClient Jar → Outcome A × RwsClient Jar

abbrev pub and_run :
    {Jar A B : Type 0} → Outcome A × RwsClient Jar → (A → R Jar B) → Outcome B × RwsClient Jar
and_run (done a, c) f = f a c
and_run (raised e, c) f = (raised e, c)

infixl 5 ◌>>=◌ ◌>>◌
abbrev pub ◌>>=◌ : {Jar A B : Type 0} → R Jar A → (A → R Jar B) → R Jar B
◌>>=◌ m f c = and_run (m c) f

abbrev pub ◌>>◌ : {Jar B : Type 0} → R Jar (Unit {0}) → R Jar B → R Jar B
m >> k = m >>= λ _. k

abbrev pub pure : {Jar A : Type 0} → A → R Jar A
pure a c = (done a, c)

-- A standard exception, which the Poco client does not throw and nothing catches.
abbrev pub throw : {Jar A : Type 0} → Text → R Jar A
throw what c = (raised (record { kind = other_exception; display_text = what }), c)

-- A method of the base class
abbrev pub on_poco : {Jar A : Type 0} → (Client Jar → Outcome A × Client Jar) → R Jar A
on_poco m c = let (r, p) = m c.poco in (r, record c { poco = p })

-- `stream << n` for an unsigned number, with fuel for its digits
unfoldable pub digits : ℕ → ℕ → Text
digits zero n = []
digits (suc fuel) n =
    let higher = digits fuel (n / 10) in
    if ltb n 10 then (48 + n) ∷ [] else higher ++ (48 + n % 10) ∷ []

unfoldable pub decimal : ℕ → Text
unfolding digits
decimal n = digits (suc n) n
