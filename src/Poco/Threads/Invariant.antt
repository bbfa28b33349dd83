-- ===== src/Poco/Threads/Invariant.antt =====
-- What holds in every state that the threads lead to: who owns a mutex, and that a receiver's pointer is not null.
use abb_librws.Base.{
  ℕ, ◌==◌, ==_iff, Bool, true, false, not, ◌&&◌, ◌||◌, ◌≡◌, refl, sym, subst, ◌∙◌, ◌↔◌, inl, inr,
  List, [], ◌∷◌, if◌then◌else◌, Option, none, some, bool_cases, then_is, else_is, arith,
}
use abb_librws.Poco.Threads.{
  Mutex, http, connect, use_socket, mutex_eq, Place, idle, request_start, request_running,
  connect_start, connect_waiting, connect_waiting_use, connect_making, connect_made,
  connect_left_use, connect_end, receive_start, receive_check, receive_waiting, receive_closing,
  receive_end, shutdown_start, shutdown_check, shutdown_calling, shutdown_waiting_use,
  shutdown_reset, shutdown_done, shutdown_end, wants, unlocks, runs, System, initial, own, stand,
  IsIn, Step, lock, unlock, run, Reachable, start, then_step,
}

-- The mutexes that a thread has locked at a place
abbrev pub holds : Mutex → Place → Bool
holds http request_running = true
holds http connect_waiting = true
holds http connect_waiting_use = true
holds http connect_making = true
holds http connect_made = true
holds http connect_left_use = true
holds http connect_end = true
holds connect connect_waiting_use = true
holds connect connect_making = true
holds connect connect_made = true
holds connect connect_left_use = true
holds connect shutdown_check = true
holds connect shutdown_calling = true
holds connect shutdown_waiting_use = true
holds connect shutdown_reset = true
holds connect shutdown_done = true
holds connect shutdown_end = true
holds use_socket connect_making = true
holds use_socket connect_made = true
holds use_socket receive_check = true
holds use_socket receive_waiting = true
holds use_socket receive_closing = true
holds use_socket receive_end = true
holds use_socket shutdown_reset = true
holds use_socket shutdown_done = true
holds _ _ = false

-- A receiver that uses the pointer
abbrev pub is_receiving : Place → Bool
is_receiving receive_waiting = true
is_receiving receive_closing = true
is_receiving _ = false

-- Every mutex
abbrev Each : (Mutex → Type 0) → Type 0
Each P = P http × P connect × P use_socket

each : (P : Mutex → Type 0) (m : Mutex) → Each P → P m
each P http h = h.0
each P connect h = h.1
each P use_socket h = h.2

-- After a lock, a thread holds what it held and the mutex that it has locked.
abbrev IsLocked : Place → Option (Mutex × Place) → Type 0
IsLocked p none = Unit
IsLocked p (some (m, p')) =
    Each (λ m'. holds m' p' ≡ (mutex_eq m' m || holds m' p)) × (is_receiving p' ≡ false)

-- After an unlock, it holds what it held but the mutex that it has unlocked.
abbrev IsUnlocked : Place → Option (Mutex × Place) → Type 0
IsUnlocked p none = Unit
IsUnlocked p (some (m, p')) =
    Each (λ m'. holds m' p' ≡ (not (mutex_eq m' m) && holds m' p))
    × (is_receiving p' ≡ false)
    × (holds m p ≡ true)

wants-IsLocked : (p : Place) → IsLocked p (wants p)
unfolding wants
wants-IsLocked request_start = ((refl, refl, refl), refl)
wants-IsLocked connect_start = ((refl, refl, refl), refl)
wants-IsLocked connect_waiting = ((refl, refl, refl), refl)
wants-IsLocked connect_waiting_use = ((refl, refl, refl), refl)
wants-IsLocked receive_start = ((refl, refl, refl), refl)
wants-IsLocked shutdown_start = ((refl, refl, refl), refl)
wants-IsLocked shutdown_waiting_use = ((refl, refl, refl), refl)
wants-IsLocked _ = tt

unlocks-IsUnlocked : (p : Place) → IsUnlocked p (unlocks p)
unfolding unlocks
unlocks-IsUnlocked request_running = ((refl, refl, refl), refl, refl)
unlocks-IsUnlocked connect_made = ((refl, refl, refl), refl, refl)
unlocks-IsUnlocked connect_left_use = ((refl, refl, refl), refl, refl)
unlocks-IsUnlocked connect_end = ((refl, refl, refl), refl, refl)
unlocks-IsUnlocked receive_end = ((refl, refl, refl), refl, refl)
unlocks-IsUnlocked shutdown_done = ((refl, refl, refl), refl, refl)
unlocks-IsUnlocked shutdown_end = ((refl, refl, refl), refl, refl)
unlocks-IsUnlocked _ = tt

-- After other statements, it holds what it held; a receiver still has a pointer; and the pointer is only made
-- null by a thread that holds websocket_use_mutex_.
abbrev IsRun : Place → Bool → Place × Bool → Type 0
IsRun p b (p', b') =
    Each (λ m. holds m p' ≡ holds m p)
    × ((is_receiving p ≡ true → b ≡ true) → is_receiving p' ≡ true → b' ≡ true)
    × (b ≡ true → b' ≡ false → holds use_socket p ≡ true)

abbrev AreRuns : Place → Bool → List (Place × Bool) → Type 0
AreRuns p b [] = Unit
AreRuns p b (r ∷ rs) = IsRun p b r × AreRuns p b rs

in_runs :
    (p : Place) (b : Bool) (r : Place × Bool) (rs : List (Place × Bool))
    → AreRuns p b rs
    → IsIn r rs
    → IsRun p b r
in_runs p b r [] h e = absurd e
in_runs p b r (x ∷ rs) h (inl e) = subst (IsRun p b) e h.0
in_runs p b r (x ∷ rs) h (inr e) = in_runs p b r rs h.1 e

keeps :
    (p p' : Place) (b : Bool)
    → Each (λ m. holds m p' ≡ holds m p)
    → is_receiving p' ≡ false
    → IsRun p b (p', b)
keeps p p' b e r = (e, (λ h k. absurd (ground arith)), (λ x y. absurd (ground arith)))

runs-AreRuns : (p : Place) (b : Bool) → AreRuns p b (runs p b)
unfolding runs
runs-AreRuns idle b = (
  keeps idle request_start b (refl, refl, refl) refl,
  (
    keeps idle connect_start b (refl, refl, refl) refl,
    (
      keeps idle receive_start b (refl, refl, refl) refl,
      (keeps idle shutdown_start b (refl, refl, refl) refl, tt),
    ),
  ),
)
runs-AreRuns connect_making b = (
  ((refl, refl, refl), (λ h r. refl), (λ x y. refl)),
  (keeps connect_making connect_made b (refl, refl, refl) refl, tt),
)
runs-AreRuns receive_check true = (((refl, refl, refl), (λ h r. refl), (λ x y. refl)), tt)
runs-AreRuns receive_check false =
    (keeps receive_check receive_end false (refl, refl, refl) refl, tt)
runs-AreRuns receive_waiting b = (
  ((refl, refl, refl), (λ h r. h refl), (λ x y. refl)),
  (
    ((refl, refl, refl), (λ h r. h refl), (λ x y. refl)),
    (keeps receive_waiting receive_end b (refl, refl, refl) refl, tt),
  ),
)
runs-AreRuns receive_closing b = (
  ((refl, refl, refl), (λ h r. absurd (ground arith)), (λ x y. refl)),
  (keeps receive_closing receive_end b (refl, refl, refl) refl, tt),
)
runs-AreRuns shutdown_check true =
    (keeps shutdown_check shutdown_calling true (refl, refl, refl) refl, tt)
runs-AreRuns shutdown_check false =
    (keeps shutdown_check shutdown_end false (refl, refl, refl) refl, tt)
runs-AreRuns shutdown_calling true = (
  keeps shutdown_calling shutdown_waiting_use true (refl, refl, refl) refl,
  (keeps shutdown_calling shutdown_end true (refl, refl, refl) refl, tt),
)
runs-AreRuns shutdown_calling false =
    (keeps shutdown_calling shutdown_end false (refl, refl, refl) refl, tt)
runs-AreRuns shutdown_reset b =
    (((refl, refl, refl), (λ h r. absurd (ground arith)), (λ x y. refl)), tt)
runs-AreRuns _ b = tt

locked_owner :
    (i j : ℕ) (q : Bool) (o : Option ℕ) (h h' : Bool)
    → (q ≡ true → o ≡ none)
    → ((j == i) ≡ true → h' ≡ (q || h))
    → (o ≡ some j) ↔ (h ≡ true)
    → ((if q then some i else o) ≡ some j) ↔ ((if j == i then h' else h) ≡ true)
locked_owner i j q o h h' free mine was = ground arith

unlocked_owner :
    (i j : ℕ) (q : Bool) (o : Option ℕ) (h h' : Bool)
    → (q ≡ true → o ≡ some i)
    → ((j == i) ≡ true → h' ≡ (not q && h))
    → (o ≡ some j) ↔ (h ≡ true)
    → ((if q then none else o) ≡ some j) ↔ ((if j == i then h' else h) ≡ true)
unlocked_owner i j q o h h' held mine was = ground arith

pub idle-holds : (m : Mutex) → holds m idle ≡ true → ⊥
idle-holds http h = ground arith
idle-holds connect h = ground arith
idle-holds use_socket h = ground arith

-- A thread owns exactly the mutexes that it has locked, and a receiver that uses the pointer has one.
pub record IsOrderly (s : System) : Type 0 where
  pub owners : (m : Mutex) (j : ℕ) → (s.owner m ≡ some j) ↔ (holds m (s.places j) ≡ true)
  pub receiving : (j : ℕ) → is_receiving (s.places j) ≡ true → s.exists ≡ true

if-holds :
    (b : Bool) (m : Mutex) (p q : Place)
    → holds m (if b then p else q) ≡ (if b then holds m p else holds m q)
if-holds true m p q = refl
if-holds false m p q = refl

if-receiving :
    (b : Bool) (p q : Place)
    → is_receiving (if b then p else q) ≡ (if b then is_receiving p else is_receiving q)
if-receiving true p q = refl
if-receiving false p q = refl

mutex_eq_sound : (m m' : Mutex) → mutex_eq m' m ≡ true → m' ≡ m
mutex_eq_sound http http h = refl
mutex_eq_sound connect connect h = refl
mutex_eq_sound use_socket use_socket h = refl
mutex_eq_sound _ _ h = absurd (ground arith)

not_here : (e x y : Bool) → x ≡ false → (if e then x else y) ≡ true → y ≡ true
not_here e x y h k = ground arith

same_if : (e x y : Bool) → (e ≡ true → x ≡ y) → (if e then x else y) ≡ y
same_if e x y h = ground arith

receiving_holds : (p : Place) → is_receiving p ≡ true → holds use_socket p ≡ true
receiving_holds receive_waiting h = refl
receiving_holds receive_closing h = refl
receiving_holds _ h = absurd (ground arith)

module _ (s : System) (was : IsOrderly s) (i : ℕ) (p : Place) where
  -- The thread i is where it was for itself.
  at_i : (j : ℕ) (P : Place → Type 0) → (j == i) ≡ true → P (s.places i) → P (s.places j)
  at_i j P e h = subst (λ k. P (s.places k)) (sym ((==_iff j i).0 e)) h

  still_receiving :
      (j : ℕ)
      → is_receiving p ≡ false
      → is_receiving (stand i p s.places j) ≡ true
      → s.exists ≡ true
  still_receiving j none_here r = was.receiving j (
      not_here (j == i) (is_receiving p) (is_receiving (s.places j)) none_here
        (sym (if-receiving (j == i) p (s.places j)) ∙ r))

  lock-IsOrderly :
      (m : Mutex)
      → wants (s.places i) ≡ some (m, p)
      → s.owner m ≡ none
      → IsOrderly (record {
        owner = own m (some i) s.owner;
        exists = s.exists;
        places = stand i p s.places;
      })
  lock-IsOrderly m w free =
      let locked : IsLocked (s.places i) (some (m, p)) =
        subst (IsLocked (s.places i)) w (wants-IsLocked (s.places i)) in
      record {
        owners = λ m' j. rw (if-holds (j == i) m' p (s.places j)) (
            locked_owner i j (mutex_eq m' m) (s.owner m') (holds m' (s.places j)) (holds m' p)
              (λ q. rw (mutex_eq_sound m m' q) free)
              (λ e.
                at_i j (λ place. holds m' p ≡ (mutex_eq m' m || holds m' place)) e
                  (each (λ n. holds n p ≡ (mutex_eq n m || holds n (s.places i))) m' locked.0))
              (was.owners m' j));
        receiving = λ j r. still_receiving j locked.1 r;
      }

  unlock-IsOrderly :
      (m : Mutex)
      → unlocks (s.places i) ≡ some (m, p)
      → IsOrderly
          (record { owner = own m none s.owner; exists = s.exists; places = stand i p s.places })
  unlock-IsOrderly m w =
      let unlocked : IsUnlocked (s.places i) (some (m, p)) =
        subst (IsUnlocked (s.places i)) w (unlocks-IsUnlocked (s.places i)) in
      record {
        owners = λ m' j. rw (if-holds (j == i) m' p (s.places j)) (
            unlocked_owner i j (mutex_eq m' m) (s.owner m') (holds m' (s.places j)) (holds m' p)
              (λ q. rw (mutex_eq_sound m m' q) ((was.owners m i).1 unlocked.2))
              (λ e.
                at_i j (λ place. holds m' p ≡ (not (mutex_eq m' m) && holds m' place)) e
                  (each (λ n. holds n p ≡ (not (mutex_eq n m) && holds n (s.places i))) m'
                    unlocked.0))
              (was.owners m' j));
        receiving = λ j r. still_receiving j unlocked.1 r;
      }

  module _ (exists : Bool) (ran : IsRun (s.places i) s.exists (p, exists)) where
    run_holds : (m : Mutex) (j : ℕ) → holds m (stand i p s.places j) ≡ holds m (s.places j)
    run_holds m j =
        if-holds (j == i) m p (s.places j)
        ∙ same_if (j == i) (holds m p) (holds m (s.places j)) (λ e.
          at_i j (λ place. holds m p ≡ holds m place) e
            (each (λ n. holds n p ≡ holds n (s.places i)) m ran.0))

    -- Another thread that uses the pointer holds websocket_use_mutex_, so this one has not made it null.
    other_receiving : (j : ℕ) → (j == i) ≡ false → is_receiving (s.places j) ≡ true → exists ≡ true
    other_receiving j e r = elim (bool_cases exists) [
      | inl is_so ↦ is_so
      | inr is_null ↦
          let by_i : s.owner use_socket ≡ some i =
            (was.owners use_socket i).1 (ran.2 (was.receiving j r) is_null) in
          let by_j : s.owner use_socket ≡ some j =
            (was.owners use_socket j).1 (receiving_holds (s.places j) r) in
          absurd (ground arith)
    ]

    run_receiving : (j : ℕ) → is_receiving (stand i p s.places j) ≡ true → exists ≡ true
    run_receiving j r = elim (bool_cases (j == i)) [
      | inl e ↦ ran.1 (was.receiving i) (
          then_is (j == i) (is_receiving p) _ true e
            (sym (if-receiving (j == i) p (s.places j)) ∙ r))
      | inr e ↦ other_receiving j e (
          else_is (j == i) _ (is_receiving (s.places j)) true e
            (sym (if-receiving (j == i) p (s.places j)) ∙ r))
    ]

  run-IsOrderly :
      (exists : Bool)
      → IsIn (p, exists) (runs (s.places i) s.exists)
      → IsOrderly (record { owner = s.owner; exists = exists; places = stand i p s.places })
  run-IsOrderly exists e =
      let ran =
        in_runs (s.places i) s.exists (p, exists) (runs (s.places i) s.exists)
          (runs-AreRuns (s.places i) s.exists) e in
      record {
        owners = λ m j. rw (run_holds exists ran m j) (was.owners m j);
        receiving = run_receiving exists ran;
      }

step-IsOrderly : (s : System) (i : ℕ) (s' : System) → IsOrderly s → Step s i s' → IsOrderly s'
step-IsOrderly s i _ was (lock m p w free) = lock-IsOrderly s was i p m w free
step-IsOrderly s i _ was (unlock m p w) = unlock-IsOrderly s was i p m w
step-IsOrderly s i _ was (run p exists e) = run-IsOrderly s was i p exists e

-- Every state that any number of threads lead to, in any order of their steps, is orderly.
pub Reachable-IsOrderly : (s : System) → Reachable s → IsOrderly s
unfolding initial
Reachable-IsOrderly _ (start exists) = record {
  owners = λ m j. (λ e. absurd (ground arith), λ e. absurd (idle-holds m e));
  receiving = λ j r. absurd (ground arith);
}
Reachable-IsOrderly _ (then_step s0 s i r step) =
    step-IsOrderly s0 i s (Reachable-IsOrderly s0 r) step
