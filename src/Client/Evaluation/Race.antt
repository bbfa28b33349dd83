-- ===== src/Client/Evaluation/Race.antt =====
-- The log in src/rws_client.cpp, which no mutex guards, under threads that evaluate results at the same time: the test
-- of its size is one step, and the removal with the push another.
use abb_librws.Base.{
  ◌+◌, ◌-◌, ◌≤◌, ◌≡◌, refl, Bool, false, leb, length, if◌then◌else◌, List, [], ◌∷◌, ◌++◌, arith,
}
use abb_librws.Poco.Types.{PocoResult}
use abb_librws.Client.Evaluation.{log_size, drop_last, push_log}

-- The log, and for each thread between its two steps whether it saw a full log, with what it will push
pub record Logging : Type 0 where
  pub log : List PocoResult
  pub began : List (Bool × PocoResult)

-- The rest of evaluatePOCOResult after its test
unfoldable pub after_test : Bool → PocoResult → List PocoResult → List PocoResult
after_test full poco_result log = poco_result ∷ (if full then drop_last log else log)

-- A thread tests the size, or one of those that did, with others before and after it, goes on.
pub data LogStep : Logging → Logging → Type 0 where
  test :
      (s : Logging) (poco_result : PocoResult) (s' : Logging)
      → s' ≡ record s { began = (leb log_size (length s.log), poco_result) ∷ s.began }
      → LogStep s s'
  go_on :
      (s : Logging) (others later : List (Bool × PocoResult)) (full : Bool)
      (poco_result : PocoResult) (s' : Logging)
      → s.began ≡ others ++ (full, poco_result) ∷ later
      → s' ≡ record { log = after_test full poco_result s.log; began = others ++ later }
      → LogStep s s'

pub data LogSteps : Logging → Logging → Type 0 where
  none_left : (s : Logging) → LogSteps s s
  and_then : (s s1 s2 : Logging) → LogStep s s1 → LogSteps s1 s2 → LogSteps s s2

-- One thread after the other is evaluatePOCOResult as a whole.
pub alone :
    (log : List PocoResult) (r : PocoResult)
    → after_test (leb log_size (length log)) r log ≡ push_log r log
unfolding after_test push_log
alone log r = refl

abbrev unaware : PocoResult → Bool × PocoResult
unaware r = (false, r)

abbrev all_unaware : List PocoResult → List (Bool × PocoResult)
all_unaware [] = []
all_unaware (r ∷ rs) = unaware r ∷ all_unaware rs

joined : {s s1 s2 : Logging} → LogSteps s s1 → LogSteps s1 s2 → LogSteps s s2
joined (none_left s) k = k
joined (and_then s s1 s2 step steps) k = and_then s s1 _ step (joined steps k)

-- All threads test a log that is not full.
all_test :
    (log rs : List PocoResult)
    → leb log_size (length log) ≡ false
    → LogSteps (record { log = log; began = [] }) (record { log = log; began = all_unaware rs })
all_test log [] h = none_left _
all_test log (r ∷ rs) h =
    joined (all_test log rs h) (and_then _ _ _ (test _ r _ (rw h refl)) (none_left _))

-- Then all push.
all_push :
    (log rs : List PocoResult)
    → (log' : List PocoResult) × LogSteps
        (record { log = log; began = all_unaware rs })
        (record { log = log'; began = [] })
      × (length log' ≡ length log + length rs)
unfolding after_test
all_push log [] = (log, none_left _, omega arith)
all_push log (r ∷ rs) =
    let (log', steps, grown) = all_push (r ∷ log) rs in
    (log', and_then _ _ _ (go_on _ [] (all_unaware rs) false r _ refl refl) steps, omega arith)

pub length-drop_last : (xs : List PocoResult) → length (drop_last xs) ≡ length xs - 1
length-drop_last [] = refl
length-drop_last (x ∷ []) = refl
length-drop_last (x ∷ y ∷ xs) = let rest = length-drop_last (y ∷ xs) in ground arith

never_shrinks :
    (r : PocoResult) (log : List PocoResult)
    → log_size ≤ length log
    → length (push_log r log) ≡ length log
unfolding push_log
never_shrinks r log h = let shorter = length-drop_last log in ground arith

-- Threads that evaluate results at the same time, each testing the log's size in one step and
-- changing the log in a later one, can grow a log of 19 results by one for each thread, past the
-- limit of 20, and a log that is past it stays as long in every evaluation that follows alone.
pub log_outgrows :
    (log rs : List PocoResult) (r : PocoResult)
    → length log ≡ 19
    → (log' : List PocoResult) × LogSteps
        (record { log = log; began = [] })
        (record { log = log'; began = [] })
      × (length log' ≡ 19 + length (r ∷ rs))
      × ((x : PocoResult) → length (push_log x log') ≡ length log')
log_outgrows log rs r h =
    let (log', steps, grown) = all_push log (r ∷ rs) in
    (
      log',
      joined (all_test log (r ∷ rs) (ground arith)) steps,
      omega arith,
      λ x. never_shrinks x log' (omega arith),
    )
