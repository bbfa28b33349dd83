-- ===== src/StateMachine/Signals.antt =====
-- What a toggled signal has gone through.
use abb_librws.Base.{
  ℕ, zero, suc, ◌≡◌, refl, Bool, true, false, Text, text_eq, text_eq_sound, if◌then◌else◌, Option,
  arith,
}
use abb_librws.Xml.{Node}
use abb_librws.Poco.Types.{done}
use abb_librws.Poco.Work.{Net, CookieStore}
use abb_librws.Client.Types.{RwsClient, R, pure, ◌>>=◌}
use abb_librws.Client.Actions.{and_run_returns, passed, answers}
use abb_librws.Interface.{
  TriBool, true_value, false_value, unknown_value, is_true, is_auto_mode, get_io_signal,
  set_io_signal,
}
use abb_librws.StateMachine.{
  low, high, max_number_of_attempts, set_and_check, attempts, toggle_io_signal,
}

is_true-true_value : (t : TriBool) → is_true t ≡ true → t ≡ true_value
unfolding is_true
is_true-true_value true_value h = refl
is_true-true_value false_value h = cc
is_true-true_value unknown_value h = cc

module _ {Jar : Type 0} (net : Net) (store : CookieStore Jar) (parse_xml : Text → Option Node) where
  -- In this state, the last thing that was done is that the signal was read, with this value.
  abbrev pub IsJustRead : Text → Text → RwsClient Jar → Type 0
  IsJustRead iosignal value d =
      (c : RwsClient Jar) × (get_io_signal net store parse_xml iosignal c ≡ (done value, d))

  set_and_check-IsJustRead :
      (iosignal value : Text) (c d : RwsClient Jar)
      → set_and_check net store parse_xml iosignal value c ≡ (done true, d)
      → IsJustRead iosignal value d
  unfolding set_and_check
  set_and_check-IsJustRead iosignal value c d e =
      let reads : R Jar Bool =
        get_io_signal net store parse_xml iosignal >>= λ read. pure (text_eq read value) in
      let (result, c1, e1, rest) =
        and_run_returns (set_io_signal net store parse_xml iosignal value c)
          (λ result. if result then reads else pure false) true d e in
      let (read, c2, e2, same) =
        and_run_returns (get_io_signal net store parse_xml iosignal c1)
          (λ read. pure (text_eq read value)) true d (passed result reads c1 d rest).1 in
      let (read_so, c2_d) = answers (text_eq read value) c2 d same in
      let read_value = text_eq_sound read value read_so in (c1, cc)

  attempt-IsJustRead :
      (result : Bool) (iosignal value : Text) (again : R Jar Bool) (c c1 d : RwsClient Jar)
      → set_and_check net store parse_xml iosignal value c ≡ (done result, c1)
      → (again c1 ≡ (done true, d) → IsJustRead iosignal value d)
      → (if result then pure true else again) c1 ≡ (done true, d)
      → IsJustRead iosignal value d
  attempt-IsJustRead true iosignal value again c c1 d e h rest =
      let c1_d = (answers true c1 d rest).1 in set_and_check-IsJustRead iosignal value c d cc
  attempt-IsJustRead false iosignal value again c c1 d e h rest = h rest

  attempts-IsJustRead :
      (left : ℕ) (iosignal value : Text) (c d : RwsClient Jar)
      → attempts net store parse_xml left iosignal value c ≡ (done true, d)
      → IsJustRead iosignal value d
  unfolding attempts
  attempts-IsJustRead zero iosignal value c d e = absurd (ground arith)
  attempts-IsJustRead (suc left) iosignal value c d e =
      let again = attempts net store parse_xml left iosignal value in
      let (result, c1, e1, rest) =
        and_run_returns (set_and_check net store parse_xml iosignal value c)
          (λ result. if result then pure true else again) true d e in
      attempt-IsJustRead result iosignal value again c c1 d e1
        (attempts-IsJustRead left iosignal value c1 d) rest

  -- What a toggle that gives true has gone through: the controller reported the mode AUTO, later the signal
  -- was read as low, and after the attempts to raise it that came then, it was read as high last of all.
  pub toggle_io_signal_toggles :
      (iosignal : Text) (c d : RwsClient Jar)
      → toggle_io_signal net store parse_xml iosignal c ≡ (done true, d)
      → (c1 : RwsClient Jar) × (c2 : RwsClient Jar) × (is_auto_mode net store parse_xml c
          ≡ (done true_value, c1))
        × (attempts net store parse_xml max_number_of_attempts iosignal low c1 ≡ (done true, c2))
        × IsJustRead iosignal low c2
        × (attempts net store parse_xml max_number_of_attempts iosignal high c2 ≡ (done true, d))
        × IsJustRead iosignal high d
  unfolding toggle_io_signal
  toggle_io_signal_toggles iosignal c d e =
      let lower : R Jar Bool = attempts net store parse_xml max_number_of_attempts iosignal low in
      let raise : R Jar Bool = attempts net store parse_xml max_number_of_attempts iosignal high in
      let if_lowered : Bool → R Jar Bool = λ lowered. if lowered then raise else pure false in
      let (auto, c1, e1, rest) =
        and_run_returns (is_auto_mode net store parse_xml c)
          (λ auto. if is_true auto then lower >>= if_lowered else pure false) true d e in
      let (auto_so, toggled) = passed (is_true auto) (lower >>= if_lowered) c1 d rest in
      let (lowered, c2, e2, then_raised) = and_run_returns (lower c1) if_lowered true d toggled in
      let (lowered_so, raised) = passed lowered raise c2 d then_raised in
      let auto_value = is_true-true_value auto auto_so in
      let low_done : lower c1 ≡ (done true, c2) = cc in
      (
        c1,
        c2,
        cc,
        low_done,
        attempts-IsJustRead max_number_of_attempts iosignal low c1 c2 low_done,
        raised,
        attempts-IsJustRead max_number_of_attempts iosignal high c2 d raised,
      )
