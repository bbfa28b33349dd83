-- ===== src/Tests/Threads.antt =====
-- Two threads: one shuts the WebSocket down while the other gets a closing frame.
use abb_librws.Base.{ℕ, Bool, true, false, ◌≡◌, ◌≢◌, refl, inl, inr, none, some}
use abb_librws.Poco.Threads.{
  Mutex, connect, use_socket, Place, idle, receive_start, receive_check, receive_waiting,
  receive_closing, receive_end, shutdown_start, shutdown_check, shutdown_calling, wants, runs,
  System, initial, own, stand, Step, lock, run, Reachable, start, then_step,
}
use abb_librws.Poco.Threads.Invariant.{holds, is_receiving}
use abb_librws.Poco.Threads.Safety.{Reachable-excludes, Reachable-progress}

abbrev to : System → ℕ → Place → Bool → System
to s i p exists = record { owner = s.owner; exists = exists; places = stand i p s.places }

abbrev to_lock : System → ℕ → Mutex → Place → System
to_lock s i m p = record {
  owner = own m (some i) s.owner;
  exists = s.exists;
  places = stand i p s.places;
}

abbrev s0 : System
s0 = record { owner = λ m. none; exists = true; places = λ i. idle }

abbrev s1 : System
s1 = to s0 0 receive_start true

abbrev s2 : System
s2 = to_lock s1 0 use_socket receive_check

abbrev s3 : System
s3 = to s2 0 receive_waiting true

abbrev s4 : System
s4 = to s3 1 shutdown_start true

abbrev s5 : System
s5 = to_lock s4 1 connect shutdown_check

abbrev s6 : System
s6 = to s5 1 shutdown_calling true

abbrev s7 : System
s7 = to s6 0 receive_closing true

-- The pointer is null, and the other thread is about to call shutdown() through it.
abbrev s8 : System
s8 = to s7 0 receive_end false

reached_3 : Reachable s3
unfolding initial wants runs
reached_3 =
    then_step s2 s3 0
      (then_step s1 s2 0
        (then_step s0 s1 0 (start true) (run receive_start true (inr (inr (inl refl)))))
        (lock use_socket receive_check refl refl))
      (run receive_waiting true (inl refl))

reached_6 : Reachable s6
unfolding wants runs
reached_6 =
    then_step s5 s6 1
      (then_step s4 s5 1
        (then_step s3 s4 1 reached_3 (run shutdown_start true (inr (inr (inr (inl refl))))))
        (lock connect shutdown_check refl refl))
      (run shutdown_calling true (inl refl))

reached_8 : Reachable s8
unfolding wants runs
reached_8 =
    then_step s7 s8 0 (then_step s6 s7 0 reached_6 (run receive_closing true (inr (inl refl))))
      (run receive_end false (inl refl))

finds_null : (s8.places 1 ≡ shutdown_calling) × (s8.exists ≡ false)
finds_null = (refl, refl)

Reachable-excludes_example :
    ((m : Mutex) (i j : ℕ) → holds m (s8.places i) ≡ true → holds m (s8.places j) ≡ true → i ≡ j)
    × ((i : ℕ) → is_receiving (s8.places i) ≡ true → s8.exists ≡ true)
Reachable-excludes_example = Reachable-excludes s8 reached_8

Reachable-progress_example : (j : ℕ) × (s6.places j ≢ idle) × (s' : System) × Step s6 j s'
Reachable-progress_example = Reachable-progress s6 1 reached_6 (λ e. cc)
