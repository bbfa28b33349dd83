-- ===== src/Poco/Work.antt =====
-- The state of a POCOClient, and the actions that its methods are made of: each works on the client, the
-- network and the local variables of the method, and may throw.
pub mod Rules
use abb_librws.Base.{ℕ, Bool, Text, ◌≡◌, refl, List, [], ◌∷◌, Option, none, some, if◌then◌else◌}
use abb_librws.Poco.Types.{
  PocoResult, HttpRequest, HttpResponse, Cookie, Frame, Exception, Outcome, done, raised,
}

-- What the client has done with the network, the newest first.
pub data Event : Type 0 where
  sent : HttpRequest → Text → Event
  session_reset : Event
  upgraded : HttpRequest → Event
  timeout_set : Event
  frame_received : Event
  pong_sent : Text → Event
  socket_shutdown : Event

abbrev pub History : Type 0
History = List Event

-- Poco's network classes with the controller behind them. What a call does may depend on all that was
-- done before, so any behaviour in time can be put here.
pub record Net : Type 0 where
  pub respond : History → HttpRequest → Text → Outcome HttpResponse
  pub upgrade : History → HttpRequest → Outcome HttpResponse
  pub set_timeout : History → Outcome (Unit {0})
  pub receive : History → Outcome Frame
  pub pong : History → Text → Outcome (Unit {0})
  pub shutdown : History → Outcome (Unit {0})
  pub authenticate : HttpRequest → HttpResponse → Outcome HttpRequest
  pub get_cookies : HttpResponse → Outcome (List Cookie)
  pub cookie_text : Cookie → Text

-- Poco's NameValueCollection, which holds the cookies, and the `Cookie` header that it makes.
pub record CookieStore (Jar : Type 0) : Type 0 where
  pub empty : Jar
  pub has : Jar → Text → Bool
  pub set : Jar → Text → Text → Jar
  pub add : Jar → Text → Text → Jar
  pub header : Jar → Text

-- POCOClient: its cookies, whether `p_websocket_` points to a socket, and the history. The locks are not
-- here: a method is taken as one step.
pub record Client (Jar : Type 0) : Type 0 where
  pub cookies : Jar
  pub websocket : Bool
  pub history : History

-- With the local variables of a method
pub record Work (Jar : Type 0) : Type 0 where
  pub client : Client Jar
  pub open client use {cookies, websocket, history}
  pub result : PocoResult
  pub request : HttpRequest
  pub response : HttpResponse

abbrev pub M : Type 0 → Type 0 → Type 0
M Jar A = Work Jar → Outcome A × Work Jar

abbrev pub and_run :
    {Jar A B : Type 0} → Outcome A × Work Jar → (A → M Jar B) → Outcome B × Work Jar
and_run (done a, w) f = f a w
and_run (raised e, w) f = (raised e, w)

infixl 5 ◌>>=◌ ◌>>◌
abbrev pub ◌>>=◌ : {Jar A B : Type 0} → M Jar A → (A → M Jar B) → M Jar B
◌>>=◌ m f w = and_run (m w) f

abbrev pub ◌>>◌ : {Jar B : Type 0} → M Jar (Unit {0}) → M Jar B → M Jar B
m >> k = m >>= λ _. k

abbrev pub pure : {Jar A : Type 0} → A → M Jar A
pure a w = (done a, w)

abbrev pub modify : {Jar : Type 0} → (Work Jar → Work Jar) → M Jar (Unit {0})
modify f w = (done tt, f w)

-- The history grows by one event.
abbrev pub note : {Jar : Type 0} → Event → Client Jar → Client Jar
note e c = record c { history = e ∷ c.history }

-- `http_client_session_.reset()`
abbrev pub reset_session : {Jar : Type 0} → Client Jar → Client Jar
reset_session c = note session_reset c

-- A call of the network that goes into the history, whether it returns or throws.
abbrev pub call : {Jar A : Type 0} → (Work Jar → Outcome A) → (Work Jar → Event) → M Jar A
call outcome event w = (outcome w, record w { client = note (event w) w.client })

abbrev pub when : {Jar : Type 0} → Bool → M Jar (Unit {0}) → M Jar (Unit {0})
when b m = if b then m else pure tt
