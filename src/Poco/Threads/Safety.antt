-- ===== src/Poco/Threads/Safety.antt =====
-- What the mutexes achieve: no two threads between the same locks, a receiver's pointer is not null, and no deadlock.
use abb_librws.Base.{
  ℕ, Bool, true, false, ◌≡◌, ◌≢◌, refl, subst, ◌⊎◌, inl, inr, Option, none, some, arith,
}
use abb_librws.Poco.Threads.{
  Mutex, http, connect, use_socket, Place, idle, request_start, request_running, connect_start,
  connect_waiting, connect_waiting_use, connect_making, connect_made, connect_left_use, connect_end,
  receive_start, receive_check, receive_waiting, receive_closing, receive_end, shutdown_start,
  shutdown_check, shutdown_calling, shutdown_waiting_use, shutdown_reset, shutdown_done,
  shutdown_end, wants, unlocks, runs, System, IsIn, Step, lock, unlock, run, Reachable,
}
use abb_librws.Poco.Threads.Invariant.{
  holds, is_receiving, IsOrderly, Reachable-IsOrderly, idle-holds,
}

-- In every state that any number of threads lead to, in any order of their steps, two threads that have locked
-- the same mutex are one thread, and the pointer of a receiver that waits for a frame, or has got a closing
-- one, is not null.
pub Reachable-excludes :
    (s : System)
    → Reachable s
    → ((m : Mutex) (i j : ℕ) → holds m (s.places i) ≡ true → holds m (s.places j) ≡ true → i ≡ j)
      × ((i : ℕ) → is_receiving (s.places i) ≡ true → s.exists ≡ true)
Reachable-excludes s r =
    let orderly = Reachable-IsOrderly s r in
    (
      (λ m i j hi hj.
          let by_i : s.owner m ≡ some i = (orderly.owners m i).1 hi in
          let by_j : s.owner m ≡ some j = (orderly.owners m j).1 hj in ground arith),
      orderly.receiving,
    )

-- A step that needs no mutex
abbrev IsFree : Place → Bool → Type 0
IsFree p b = ((x : Mutex × Place) × (unlocks p ≡ some x)) ⊎ ((r : Place × Bool) × IsIn r (runs p b))

abbrev Wants : Mutex → Place → Type 0
Wants m p = (p' : Place) × (wants p ≡ some (m, p'))

use_holder : (p : Place) (b : Bool) → holds use_socket p ≡ true → IsFree p b
unfolding unlocks runs
use_holder connect_making b h = inr ((connect_made, true), inl refl)
use_holder connect_made b h = inl (_, refl)
use_holder receive_check true h = inr (_, inl refl)
use_holder receive_check false h = inr (_, inl refl)
use_holder receive_waiting b h = inr (_, inl refl)
use_holder receive_closing b h = inr (_, inl refl)
use_holder receive_end b h = inl (_, refl)
use_holder shutdown_reset b h = inr (_, inl refl)
use_holder shutdown_done b h = inl (_, refl)
use_holder _ b h = absurd (ground arith)

connect_holder : (p : Place) (b : Bool) → holds connect p ≡ true → IsFree p b ⊎ Wants use_socket p
unfolding unlocks runs wants
connect_holder connect_waiting_use b h = inr (_, refl)
connect_holder connect_left_use b h = inl (inl (_, refl))
connect_holder shutdown_check true h = inl (inr (_, inl refl))
connect_holder shutdown_check false h = inl (inr (_, inl refl))
connect_holder shutdown_calling true h = inl (inr (_, inl refl))
connect_holder shutdown_calling false h = inl (inr (_, inl refl))
connect_holder shutdown_waiting_use b h = inr (_, refl)
connect_holder shutdown_end b h = inl (inl (_, refl))
connect_holder connect_making b h = inl (use_holder connect_making b refl)
connect_holder connect_made b h = inl (use_holder connect_made b refl)
connect_holder shutdown_reset b h = inl (use_holder shutdown_reset b refl)
connect_holder shutdown_done b h = inl (use_holder shutdown_done b refl)
connect_holder _ b h = absurd (ground arith)

http_holder :
    (p : Place) (b : Bool)
    → holds http p ≡ true
    → (IsFree p b ⊎ Wants use_socket p) ⊎ Wants connect p
unfolding unlocks wants
http_holder request_running b h = inl (inl (inl (_, refl)))
http_holder connect_waiting b h = inr (_, refl)
http_holder connect_waiting_use b h = inl (connect_holder connect_waiting_use b refl)
http_holder connect_making b h = inl (connect_holder connect_making b refl)
http_holder connect_made b h = inl (connect_holder connect_made b refl)
http_holder connect_left_use b h = inl (connect_holder connect_left_use b refl)
http_holder connect_end b h = inl (inl (inl (_, refl)))
http_holder _ b h = absurd (ground arith)

-- Whoever is in a method is free, or wants a mutex, or holds one.
in_method :
    (p : Place) (b : Bool)
    → p ≢ idle
    → Wants http p ⊎ (Wants connect p ⊎ (Wants use_socket p ⊎ IsFree p b))
unfolding wants unlocks runs
in_method idle b h = absurd (h refl)
in_method request_start b h = inl (_, refl)
in_method connect_start b h = inl (_, refl)
in_method connect_waiting b h = inr (inl (_, refl))
in_method shutdown_start b h = inr (inl (_, refl))
in_method connect_waiting_use b h = inr (inr (inl (_, refl)))
in_method receive_start b h = inr (inr (inl (_, refl)))
in_method shutdown_waiting_use b h = inr (inr (inl (_, refl)))
in_method request_running b h = inr (inr (inr (inl (_, refl))))
in_method connect_making b h = inr (inr (inr (use_holder connect_making b refl)))
in_method connect_made b h = inr (inr (inr (use_holder connect_made b refl)))
in_method connect_left_use b h = inr (inr (inr (inl (_, refl))))
in_method connect_end b h = inr (inr (inr (inl (_, refl))))
in_method receive_check b h = inr (inr (inr (use_holder receive_check b refl)))
in_method receive_waiting b h = inr (inr (inr (use_holder receive_waiting b refl)))
in_method receive_closing b h = inr (inr (inr (use_holder receive_closing b refl)))
in_method receive_end b h = inr (inr (inr (use_holder receive_end b refl)))
in_method shutdown_check true h = inr (inr (inr (inr (_, inl refl))))
in_method shutdown_check false h = inr (inr (inr (inr (_, inl refl))))
in_method shutdown_calling true h = inr (inr (inr (inr (_, inl refl))))
in_method shutdown_calling false h = inr (inr (inr (inr (_, inl refl))))
in_method shutdown_reset b h = inr (inr (inr (use_holder shutdown_reset b refl)))
in_method shutdown_done b h = inr (inr (inr (use_holder shutdown_done b refl)))
in_method shutdown_end b h = inr (inr (inr (inl (_, refl))))

module _ (s : System) (orderly : IsOrderly s) where
  -- A thread that is in a method can make a step.
  abbrev Goes : Type 0
  Goes = (j : ℕ) × (s.places j ≢ idle) × (s' : System) × Step s j s'

  owner_in_method : (m : Mutex) (j : ℕ) → holds m (s.places j) ≡ true → s.places j ≢ idle
  owner_in_method m j h e = idle-holds m (subst (λ p. holds m p ≡ true) e h)

  free_goes : (j : ℕ) → s.places j ≢ idle → IsFree (s.places j) s.exists → Goes
  free_goes j n (inl ((m, p), e)) = (j, n, _, unlock m p e)
  free_goes j n (inr ((p, b), e)) = (j, n, _, run p b e)

  -- A thread that wants a mutex goes, or the owner of the mutex does.
  wants_goes :
      (m : Mutex)
      → ((j : ℕ) → holds m (s.places j) ≡ true → Goes)
      → (j : ℕ) → s.places j ≢ idle
      → Wants m (s.places j)
      → Goes
  wants_goes m of_owner j n (p, e) = by_owner (s.owner m) refl
    where
      by_owner : (o : Option ℕ) → s.owner m ≡ o → Goes
      by_owner none h = (j, n, _, lock m p e h)
      by_owner (some k) h = of_owner k ((orderly.owners m k).0 h)

  use_owner_goes : (j : ℕ) → holds use_socket (s.places j) ≡ true → Goes
  use_owner_goes j h =
      free_goes j (owner_in_method use_socket j h) (use_holder (s.places j) s.exists h)

  connect_owner_goes : (j : ℕ) → holds connect (s.places j) ≡ true → Goes
  connect_owner_goes j h = elim (connect_holder (s.places j) s.exists h) [
    | inl free ↦ free_goes j (owner_in_method connect j h) free
    | inr w ↦ wants_goes use_socket use_owner_goes j (owner_in_method connect j h) w
  ]

  http_owner_goes : (j : ℕ) → holds http (s.places j) ≡ true → Goes
  http_owner_goes j h = elim (http_holder (s.places j) s.exists h) [
    | inl (inl free) ↦ free_goes j (owner_in_method http j h) free
    | inl (inr w) ↦ wants_goes use_socket use_owner_goes j (owner_in_method http j h) w
    | inr w ↦ wants_goes connect connect_owner_goes j (owner_in_method http j h) w
  ]

-- In every state that any number of threads lead to, in any order of their steps, in which some thread is in a
-- method, a thread that is in a method can make a step: the mutexes never deadlock.
pub Reachable-progress :
    (s : System) (i : ℕ)
    → Reachable s
    → s.places i ≢ idle
    → (j : ℕ) × (s.places j ≢ idle) × (s' : System) × Step s j s'
Reachable-progress s i r n =
    let orderly = Reachable-IsOrderly s r in
    elim (in_method (s.places i) s.exists n) [
      | inl w ↦ wants_goes s orderly http (http_owner_goes s orderly) i n w
      | inr (inl w) ↦ wants_goes s orderly connect (connect_owner_goes s orderly) i n w
      | inr (inr (inl w)) ↦ wants_goes s orderly use_socket (use_owner_goes s orderly) i n w
      | inr (inr (inr free)) ↦ free_goes s orderly i n free
    ]
