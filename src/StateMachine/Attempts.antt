-- ===== src/StateMachine/Attempts.antt =====
-- When a toggle succeeds.
use abb_librws.Base.{
  ℕ, zero, suc, ◌≤◌, ◌≡◌, ◌↔◌, refl, arith, Bool, true, false, Text, Option, if◌then◌else◌,
}
use abb_librws.Xml.{Node}
use abb_librws.Poco.Types.{done}
use abb_librws.Poco.Work.{Net, CookieStore}
use abb_librws.Client.Types.{RwsClient, pure}
use abb_librws.Client.Actions.{and_run_returns, answers}
use abb_librws.Interface.{true_value, is_true, is_auto_mode}
use abb_librws.StateMachine.{
  low, high, max_number_of_attempts, set_and_check, attempts, toggle_io_signal,
}
use abb_librws.StateMachine.Signals.{toggle_io_signal_toggles}

module _ {Jar : Type 0} (net : Net) (store : CookieStore Jar) (parse_xml : Text → Option Node)
    (iosignal value : Text) where
  -- So many attempts, of which only the last one sets the signal and reads it back.
  pub data Succeeds : ℕ → RwsClient Jar → RwsClient Jar → Type 0 where
    at_last :
        {c d : RwsClient Jar}
        → set_and_check net store parse_xml iosignal value c ≡ (done true, d)
        → Succeeds 1 c d
    again :
        {k : ℕ} {c c1 d : RwsClient Jar}
        → set_and_check net store parse_xml iosignal value c ≡ (done false, c1)
        → Succeeds k c1 d
        → Succeeds (suc k) c d

  pub attempts-Succeeds :
      (left k : ℕ) (c d : RwsClient Jar)
      → Succeeds k c d
      → k ≤ left
      → attempts net store parse_xml left iosignal value c ≡ (done true, d)
  unfolding attempts
  attempts-Succeeds zero k c d (at_last e) h = absurd (omega arith)
  attempts-Succeeds zero k c d (again e s) h = absurd (omega arith)
  attempts-Succeeds (suc left) k c d (at_last e) h = rw e refl
  attempts-Succeeds (suc left) k c d (again {c1 = c1} e s) h =
      rw e (attempts-Succeeds left _ c1 d s (omega arith))

  abbrev SucceedsWithin : ℕ → RwsClient Jar → RwsClient Jar → Type 0
  SucceedsWithin n c d = (k : ℕ) × (k ≤ n) × Succeeds k c d

  attempt_result :
      (left : ℕ) (result : Bool) (c c1 d : RwsClient Jar)
      → set_and_check net store parse_xml iosignal value c ≡ (done result, c1)
      → (attempts net store parse_xml left iosignal value c1 ≡ (done true, d)
          → SucceedsWithin left c1 d)
      → (if result then pure true else attempts net store parse_xml left iosignal value) c1
        ≡ (done true, d)
      → SucceedsWithin (suc left) c d
  attempt_result left true c c1 d e h rest =
      let c1_d = (answers true c1 d rest).1 in (1, omega arith, at_last cc)
  attempt_result left false c c1 d e h rest =
      let (k, few, s) = h rest in (suc k, omega arith, again e s)

  pub Succeeds-attempts :
      (left : ℕ) (c d : RwsClient Jar)
      → attempts net store parse_xml left iosignal value c ≡ (done true, d)
      → SucceedsWithin left c d
  unfolding attempts
  Succeeds-attempts zero c d e = absurd (ground arith)
  Succeeds-attempts (suc left) c d e =
      let more = attempts net store parse_xml left iosignal value in
      let (result, c1, e1, rest) =
        and_run_returns (set_and_check net store parse_xml iosignal value c)
          (λ result. if result then pure true else more) true d e in
      attempt_result left result c c1 d e1 (Succeeds-attempts left c1 d) rest

module _ {Jar : Type 0} (net : Net) (store : CookieStore Jar) (parse_xml : Text → Option Node) where
  -- A toggle gives true exactly if the controller reports the mode AUTO, then one of five attempts to set the
  -- signal low succeeds, and then one of five attempts to set it high.
  pub toggle_io_signal_iff :
      (iosignal : Text) (c d : RwsClient Jar)
      → (toggle_io_signal net store parse_xml iosignal c ≡ (done true, d)) ↔ (
          (c1 : RwsClient Jar) × (c2 : RwsClient Jar) × (j : ℕ) × (k : ℕ) × (is_auto_mode net store
              parse_xml c
            ≡ (done true_value, c1))
          × (j ≤ 5)
          × Succeeds net store parse_xml iosignal low j c1 c2
          × (k ≤ 5)
          × Succeeds net store parse_xml iosignal high k c2 d)
  unfolding toggle_io_signal is_true
  toggle_io_signal_iff iosignal c d = (
    λ e.
        let (c1, c2, auto, lowered, read_low, raised, read_high) =
          toggle_io_signal_toggles net store parse_xml iosignal c d e in
        let (j, few_j, s) =
          Succeeds-attempts net store parse_xml iosignal low max_number_of_attempts c1 c2 lowered in
        let (k, few_k, t) =
          Succeeds-attempts net store parse_xml iosignal high max_number_of_attempts c2 d raised in
        (c1, c2, j, k, auto, few_j, s, few_k, t),
    λ h.
        let (c1, c2, j, k, auto, few_j, s, few_k, t) = h in
        let lowered =
          attempts-Succeeds net store parse_xml iosignal low max_number_of_attempts j c1 c2 s
            few_j in
        let raised =
          attempts-Succeeds net store parse_xml iosignal high max_number_of_attempts k c2 d t
            few_k in
        rw (auto, lowered, raised) refl,
  )
