-- ===== src/StateMachine/Bounds.antt =====
-- How many requests a toggle sends.
use abb_librws.Base.{ℕ, zero, suc, ◌+◌, ◌*◌, ◌≤◌, arith, true, false, Text, if◌then◌else◌, Option}
use abb_librws.Xml.{Node}
use abb_librws.Poco.Work.{Net, CookieStore}
use abb_librws.Poco.Work.Rules.{sent_count}
use abb_librws.Client.Types.{RwsClient, pure}
use abb_librws.Client.Actions.Limits.{
  Asks, Asks-bind, Asks-pure, Asks-if, Asks-get_document, Asks-post_and_accept,
}
use abb_librws.Client.Constants.{rw_panel_opmode}
use abb_librws.Client.Paths.{io_signal_path}
use abb_librws.Client.Requests.{get_document, get_panel_operation_mode}
use abb_librws.Client.Requests
use abb_librws.Client.Commands
use abb_librws.Client.Commands.{post_and_accept}
use abb_librws.Interface.{is_true, is_auto_mode, get_io_signal, set_io_signal}
use abb_librws.StateMachine.{
  low, high, max_number_of_attempts, set_and_check, attempts, toggle_io_signal,
}

module _ {Jar : Type 0} (net : Net) (store : CookieStore Jar) (parse_xml : Text → Option Node) where
  Asks-is_auto_mode : Asks 3 (is_auto_mode net store parse_xml)
  unfolding is_auto_mode get_panel_operation_mode
  Asks-is_auto_mode =
      Asks-bind (get_document net store parse_xml rw_panel_opmode) _
        (Asks-get_document net store parse_xml _) (λ r. Asks-pure _ 0)

  Asks-get_io_signal : (iosignal : Text) → Asks 3 (get_io_signal net store parse_xml iosignal)
  unfolding get_io_signal Requests.get_io_signal
  Asks-get_io_signal iosignal =
      Asks-bind (get_document net store parse_xml (io_signal_path iosignal)) _
        (Asks-get_document net store parse_xml _) (λ r. Asks-pure _ 0)

  Asks-set_io_signal :
      (iosignal value : Text) → Asks 3 (set_io_signal net store parse_xml iosignal value)
  unfolding set_io_signal Commands.set_io_signal
  Asks-set_io_signal iosignal value =
      Asks-bind (Commands.set_io_signal net store parse_xml iosignal value) _
        (Asks-post_and_accept net store parse_xml _ _ _) (λ r. Asks-pure _ 0)

  Asks-set_and_check :
      (iosignal value : Text) → Asks 6 (set_and_check net store parse_xml iosignal value)
  unfolding set_and_check
  Asks-set_and_check iosignal value =
      Asks-bind (set_io_signal net store parse_xml iosignal value) _
        (Asks-set_io_signal iosignal value)
        (λ result.
          Asks-if result _ _
            (Asks-bind (get_io_signal net store parse_xml iosignal) _ (Asks-get_io_signal iosignal)
              (λ read. Asks-pure _ 0))
            (Asks-pure false 3))

  Asks-attempts :
      (left : ℕ) (iosignal value : Text)
      → Asks (left * 6) (attempts net store parse_xml left iosignal value)
  unfolding attempts
  Asks-attempts zero iosignal value = Asks-pure false 0
  Asks-attempts (suc left) iosignal value =
      let bound =
        Asks-bind (set_and_check net store parse_xml iosignal value)
          (λ result. if result then pure true else attempts net store parse_xml left iosignal value)
          (Asks-set_and_check iosignal value)
          (λ result.
            Asks-if result _ _ (Asks-pure true (left * 6)) (Asks-attempts left iosignal value)) in
      record { at = λ c. omega (arith, bound.at c) }

  -- A toggle sends at most 63 requests, whatever the controller answers: three for the mode, and six for
  -- each of at most ten attempts.
  pub toggle_io_signal_bounded :
      (iosignal : Text) (c : RwsClient Jar)
      → sent_count (toggle_io_signal net store parse_xml iosignal c).1.poco.history
        ≤ 63 + sent_count c.poco.history
  unfolding toggle_io_signal
  toggle_io_signal_bounded iosignal c =
      let bound = Asks-bind (is_auto_mode net store parse_xml) _ Asks-is_auto_mode (λ auto.
        Asks-if (is_true auto) _ _
          (Asks-bind (attempts net store parse_xml max_number_of_attempts iosignal low) _
            (Asks-attempts max_number_of_attempts iosignal low)
            (λ lowered.
              Asks-if lowered _ _ (Asks-attempts max_number_of_attempts iosignal high)
                (Asks-pure false 30)))
          (Asks-pure false 60)) in
      bound.at c
