-- ===== src/Interface/Symbols/Store.antt =====
-- The calls on RAPID symbols, by RWSInterface and by a store that maps the path of a symbol to its value.
use abb_librws.Base.{
  ◌<◌, ◌≡◌, Bool, true, false, Text, text_eq, List, [], ◌∷◌, Option, some, if◌then◌else◌,
}
use abb_librws.Xml.{Node}
use abb_librws.Rapid.Atoms.{Floats}
use abb_librws.Rapid.Symbols.{Symbol, get_type}
use abb_librws.Rapid.Symbols.Texts.{IsClean, depth}
use abb_librws.Rapid.Symbols.RoundTrip.{SameShape, IsExact}
use abb_librws.Rapid.Delimited.{uint_range}
use abb_librws.Poco.Work.{Net, CookieStore}
use abb_librws.Client.Types.{RapidResource, R, ◌>>=◌, pure}
use abb_librws.Client.Paths.{rapid_data_path}
use abb_librws.Interface.{read_rapid_symbol_data, write_rapid_symbol_data}

-- Writing a value to a symbol, and reading a symbol into an object.
pub data SymbolCall (Num Dnum : Type 0) : Type 0 where
  write : RapidResource → Symbol Num Dnum → SymbolCall Num Dnum
  read : RapidResource → Symbol Num Dnum → SymbolCall Num Dnum

-- Whether a write is a success, and whether a read is one, with the object that it leaves.
pub data Reply (Num Dnum : Type 0) : Type 0 where
  written : Bool → Reply Num Dnum
  was_read : Bool → Option (Symbol Num Dnum) → Reply Num Dnum

abbrev pub Values : Type 0 → Type 0 → Type 0
Values Num Dnum = Text → Symbol Num Dnum

abbrev pub put_value :
    {Num Dnum : Type 0} → Text → Symbol Num Dnum → Values Num Dnum → Values Num Dnum
put_value path s values p = if text_eq path p then s else values p

-- The store after a call, and its reply: a read into an object of another type fails and leaves the object.
abbrev pub values_after :
    {Num Dnum : Type 0} → SymbolCall Num Dnum → Values Num Dnum → Values Num Dnum
values_after (write resource s) values = put_value (rapid_data_path resource) s values
values_after (read resource into) values = values

unfoldable pub reply_of :
    {Num Dnum : Type 0} → SymbolCall Num Dnum → Values Num Dnum → Reply Num Dnum
reply_of (write resource s) values = written true
reply_of (read resource into) values =
    let value = values (rapid_data_path resource) in
    if text_eq (get_type into) (get_type value)
    then was_read true (some value)
    else was_read false (some into)

-- The replies of the store to a sequence of calls, and the store after them.
unfoldable pub store_replies :
    {Num Dnum : Type 0} → List (SymbolCall Num Dnum) → Values Num Dnum → List (Reply Num Dnum)
store_replies [] values = []
store_replies (call ∷ calls) values =
    reply_of call values ∷ store_replies calls (values_after call values)

unfoldable pub store_after :
    {Num Dnum : Type 0} → List (SymbolCall Num Dnum) → Values Num Dnum → Values Num Dnum
store_after [] values = values
store_after (call ∷ calls) values = store_after calls (values_after call values)

module _ {Num Dnum : Type 0} (fl : Floats Num Dnum) where
  -- Its atomic texts are words that read back exactly, and it is nested less than 2^32 deep.
  abbrev pub IsReadable : Symbol Num Dnum → Type 0
  IsReadable s = IsClean fl s × IsExact fl s × (depth s < uint_range)

  -- A value that is written has the shape that its symbol was declared with and reads back. An object of
  -- the declared type's name has the declared shape.
  abbrev pub Fits : Values Num Dnum → SymbolCall Num Dnum → Type 0
  Fits declared (write resource s) =
      SameShape (declared (rapid_data_path resource)) s × IsReadable s
  Fits declared (read resource into) =
      get_type into ≡ get_type (declared (rapid_data_path resource))
      → SameShape (declared (rapid_data_path resource)) into

  module _ {Jar : Type 0} (net : Net) (store : CookieStore Jar)
      (parse_xml : Text → Option Node) where
    -- The same calls by RWSInterface
    unfoldable pub perform : SymbolCall Num Dnum → R Jar (Reply Num Dnum)
    perform (write resource s) =
        write_rapid_symbol_data net store parse_xml fl resource s >>= λ success.
        pure (written success)
    perform (read resource into) =
        read_rapid_symbol_data net store parse_xml fl resource (some into) >>= λ answer.
        pure (was_read answer.0 answer.1)

    unfoldable pub perform_all : List (SymbolCall Num Dnum) → R Jar (List (Reply Num Dnum))
    perform_all [] = pure []
    perform_all (call ∷ calls) =
        perform call >>= λ reply. perform_all calls >>= λ replies. pure (reply ∷ replies)
