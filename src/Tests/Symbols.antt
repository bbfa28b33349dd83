-- ===== src/Tests/Symbols.antt =====
-- A controller with symbols of the type num, to which a client writes and from which it reads.
use abb_librws.Base.{
  ℕ, zero, suc, ◌+◌, ◌≡◌, refl, arith, true, false, Text, codes, text_eq, if◌then◌else◌, ◌==◌, List,
  [], ◌∷◌, Option, some, none, All,
}
use abb_librws.Xml.{
  Node, element, text, cons, nil, find_text_content, find_text, node_has_attribute, has_pair,
}
use abb_librws.Rapid.Atoms.{construct_num}
use abb_librws.Rapid.Symbols.{num, bool, construct, get_type}
use abb_librws.Poco.Types.{done, HttpRequest, HttpResponse}
use abb_librws.Poco.Work.{Net, History}
use abb_librws.Poco.Http.{http_post}
use abb_librws.Client.Types.{RapidResource}
use abb_librws.Client.Constants.{class_value, class_dattyp}
use abb_librws.Client.Paths.{rapid_data_path, rapid_properties_path}
use abb_librws.Interface.Symbols.{value_at, KeepsSymbols}
use abb_librws.Interface.Symbols.Store.{
  SymbolCall, write, read, Reply, written, was_read, Values, Fits, IsReadable, perform_all,
  store_replies, store_after, reply_of,
}
use abb_librws.Interface.Symbols.Refinement.{Holds, Refines, perform_all-Refines}
use abb_librws.Tests.Data.{digits}
use abb_librws.Tests.Network.{jar, controller}
use abb_librws.Tests.Toggle.{idle}

abbrev letter : ℕ → Text → ℕ
letter n [] = 0
letter zero (c ∷ t) = c
letter (suc n) (c ∷ t) = letter n t

abbrev fives : Text → Text
fives path = codes "5"

-- A document is its class, by a letter, and its text. The letter at 17 tells `data` from `properties`.
abbrev answer_to : History → HttpRequest → HttpResponse
answer_to history request =
    if text_eq request.method http_post
    then record { status = 204; headers = []; content = [] }
    else record {
      status = 200;
      headers = [];
      content =
          if letter 17 request.uri == 100
          then 100 ∷ value_at fives request.uri history
          else codes "pnum";
    }

abbrev keeper : Net
keeper = record controller { respond = λ history request content. done (answer_to history request) }

abbrev read_document : Text → Option Node
read_document [] = none
read_document (c ∷ t) =
    some (element ((if c == 100 then class_value else class_dattyp) ∷ []) (cons (text t) nil))

abbrev declared : Values ℕ ℕ
declared path = num 5

keeper-KeepsSymbols : KeepsSymbols keeper read_document fives (λ p. get_type (declared p))
unfolding text_eq find_text_content find_text node_has_attribute has_pair rapid_data_path
    rapid_properties_path get_type
keeper-KeepsSymbols = record {
  takes_value = λ history request content resource posted to_path.
      (answer_to history request, refl, rw posted refl);
  tells_value = λ history request resource got from. (
    answer_to history request,
    element (class_value ∷ [])
        (cons (text (value_at fives (rapid_data_path resource) history)) nil),
    refl,
    rw got refl,
    rw (got, from) (λ e. cc),
    rw (got, from) refl,
    refl,
  );
  tells_type = λ history request resource got from. (
    answer_to history request,
    element (class_dattyp ∷ []) (cons (text (codes "num")) nil),
    refl,
    rw got refl,
    rw (got, from) (λ e. cc),
    rw (got, from) refl,
    refl,
  );
  cookies_readable = λ history request content response answer. ([], refl);
}

abbrev counter : RapidResource
counter = record { task = codes "T_ROB1"; module_name = codes "M"; name = codes "n" }

abbrev calls : List (SymbolCall ℕ ℕ)
calls = write counter (num 7) ∷ read counter (num 1) ∷ read counter (bool true) ∷ []

abbrev replies : List (Reply ℕ ℕ)
replies = written true ∷ was_read true (some (num 7)) ∷ was_read false (some (bool true)) ∷ []

replies_of_store : store_replies calls declared ≡ replies
unfolding store_replies reply_of get_type text_eq rapid_data_path
replies_of_store = refl

digit : (n : ℕ) → (n == 9) ≡ false → construct digits (num n) ≡ (48 + n) ∷ []
unfolding construct construct_num
digit n h = rw h refl

num-IsReadable_5 : IsReadable digits (num 5)
unfolding construct_num
num-IsReadable_5 = (((λ e. cc), (refl, tt)), (λ old. refl), omega arith)

num-IsReadable_7 : IsReadable digits (num 7)
unfolding construct_num
num-IsReadable_7 = (((λ e. cc), (refl, tt)), (λ old. refl), omega arith)

declared-Holds : Holds digits fives declared declared idle.poco.history
unfolding value_at
declared-Holds p = (rw (digit 5 refl) refl, tt, num-IsReadable_5)

calls-Fits : All (Fits digits declared) calls
unfolding get_type
calls-Fits = ((tt, num-IsReadable_7), ((λ e. tt), ((λ e. cc), tt)))

perform_all-Refines_example :
    Refines digits keeper jar read_document fives declared keeper-KeepsSymbols
      (perform_all digits keeper jar read_document calls idle)
      (store_replies calls declared)
      (store_after calls declared)
perform_all-Refines_example =
    perform_all-Refines digits keeper jar read_document fives declared keeper-KeepsSymbols calls
      declared idle calls-Fits declared-Holds
