-- ===== src/Poco/Threads.antt =====
-- The mutexes of POCOClient in src/rws_poco_client.cpp: threads that call its methods, in steps between which other
-- threads run. A step locks a mutex, unlocks one, or runs the statements in between, of which only what they
-- do to the pointer p_websocket_ is kept.
pub mod Invariant
pub mod Safety
use abb_librws.Base.{
  ℕ, ◌==◌, Bool, true, false, ◌≡◌, ◌⊎◌, List, [], ◌∷◌, if◌then◌else◌, Option, none, some,
}

-- http_mutex_, websocket_connect_mutex_ and websocket_use_mutex_
pub data Mutex : Type 0 where
  http connect use_socket : Mutex

abbrev pub mutex_eq : Mutex → Mutex → Bool
mutex_eq http http = true
mutex_eq connect connect = true
mutex_eq use_socket use_socket = true
mutex_eq _ _ = false

-- Where a thread stands in one of the methods
pub data Place : Type 0 where
  idle : Place
  -- makeHTTPRequest
  request_start request_running : Place
  -- webSocketConnect
  connect_start connect_waiting connect_waiting_use connect_making connect_made connect_left_use
        connect_end :
      Place
  -- webSocketReceiveFrame
  receive_start receive_check receive_waiting receive_closing receive_end : Place
  -- webSocketShutdown
  shutdown_start shutdown_check shutdown_calling shutdown_waiting_use shutdown_reset shutdown_done
        shutdown_end :
      Place

-- The mutex that a thread locks next, and where it stands then
unfoldable pub wants : Place → Option (Mutex × Place)
wants request_start = some (http, request_running)
wants connect_start = some (http, connect_waiting)
wants connect_waiting = some (connect, connect_waiting_use)
wants connect_waiting_use = some (use_socket, connect_making)
wants receive_start = some (use_socket, receive_check)
wants shutdown_start = some (connect, shutdown_check)
wants shutdown_waiting_use = some (use_socket, shutdown_reset)
wants _ = none

-- The mutex that a thread unlocks next, at the end of a scope
unfoldable pub unlocks : Place → Option (Mutex × Place)
unlocks request_running = some (http, idle)
unlocks connect_made = some (use_socket, connect_left_use)
unlocks connect_left_use = some (connect, connect_end)
unlocks connect_end = some (http, idle)
unlocks receive_end = some (use_socket, idle)
unlocks shutdown_done = some (use_socket, shutdown_end)
unlocks shutdown_end = some (connect, idle)
unlocks _ = none

-- What else a thread may do: where it stands after it, and whether the pointer is then not null, given whether
-- it is so before. An exception goes to the end of the method.
unfoldable pub runs : Place → Bool → List (Place × Bool)
runs idle exists =
    (request_start, exists)
    ∷ (connect_start, exists)
    ∷ (receive_start, exists)
    ∷ (shutdown_start, exists)
    ∷ []
runs connect_making exists = (connect_made, true) ∷ (connect_made, exists) ∷ []
runs receive_check exists = (if exists then receive_waiting else receive_end, exists) ∷ []
runs receive_waiting exists =
    (receive_waiting, exists) ∷ (receive_closing, exists) ∷ (receive_end, exists) ∷ []
runs receive_closing exists = (receive_end, false) ∷ (receive_end, exists) ∷ []
runs shutdown_check exists = (if exists then shutdown_calling else shutdown_end, exists) ∷ []
runs shutdown_calling true = (shutdown_waiting_use, true) ∷ (shutdown_end, true) ∷ []
runs shutdown_calling false = (shutdown_end, false) ∷ []
runs shutdown_reset exists = (shutdown_done, false) ∷ []
runs _ exists = []

-- The owners of the mutexes, whether p_websocket_ is not null, and where the threads stand
pub record System : Type 0 where
  pub owner : Mutex → Option ℕ
  pub exists : Bool
  pub places : ℕ → Place

unfoldable pub initial : Bool → System
initial exists = record { owner = λ m. none; exists = exists; places = λ i. idle }

abbrev pub own : Mutex → Option ℕ → (Mutex → Option ℕ) → Mutex → Option ℕ
own m who owner m' = if mutex_eq m' m then who else owner m'

abbrev pub stand : ℕ → Place → (ℕ → Place) → ℕ → Place
stand i p places j = if j == i then p else places j

abbrev pub IsIn : {A : Type 0} → A → List A → Type 0
IsIn a [] = ⊥
IsIn a (b ∷ bs) = (b ≡ a) ⊎ IsIn a bs

-- A step of the thread i
pub data Step (s : System) (i : ℕ) : System → Type 0 where
  lock :
      (m : Mutex) (p : Place)
      → wants (s.places i) ≡ some (m, p)
      → s.owner m ≡ none
      → Step s i (record {
        owner = own m (some i) s.owner;
        exists = s.exists;
        places = stand i p s.places;
      })
  unlock :
      (m : Mutex) (p : Place)
      → unlocks (s.places i) ≡ some (m, p)
      → Step s i
          (record { owner = own m none s.owner; exists = s.exists; places = stand i p s.places })
  run :
      (p : Place) (exists : Bool)
      → IsIn (p, exists) (runs (s.places i) s.exists)
      → Step s i (record { owner = s.owner; exists = exists; places = stand i p s.places })

-- The states that any number of threads lead to, in any order of their steps
pub data Reachable : System → Type 0 where
  start : (exists : Bool) → Reachable (initial exists)
  then_step : (s s' : System) (i : ℕ) → Reachable s → Step s i s' → Reachable s'
