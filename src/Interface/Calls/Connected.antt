-- ===== src/Interface/Calls/Connected.antt =====
-- When collectRuntimeInfo takes the controller to be connected.
use abb_librws.Base.{
  ◌≡◌, refl, sym, ap, ◌∙◌, ◌↔◌, Bool, true, false, Text, text_eq, ◌&&◌, if◌then◌else◌, Option,
  arith,
}
use abb_librws.Xml.{Node, XmlAttribute, find_text_content}
use abb_librws.Poco.Types.{done}
use abb_librws.Poco.Work.{Net, CookieStore}
use abb_librws.Client.Types.{RwsClient, RwsResult, R, ◌>>=◌, pure}
use abb_librws.Client.Requests.{
  get_panel_operation_mode, get_panel_controller_state, get_rapid_execution,
}
use abb_librws.Client.Actions.{and_run_returns, pure_returns}
use abb_librws.Interface.{
  TriBool, unknown_value, tri_of, compare_single_content, is_auto_mode, is_motors_on,
  is_rapid_running,
}
use abb_librws.TriBools.{tri_eq, tri_ne}
use abb_librws.Interface.Calls.{RuntimeInfo, is_known, collect_runtime_info}

is_known-tri_of : (b : Bool) → is_known (tri_of b) ≡ true
unfolding tri_ne tri_eq tri_of
is_known-tri_of true = refl
is_known-tri_of false = refl

known_by :
    (b : Bool) (t : TriBool) → is_known t ≡ true → is_known (if b then t else unknown_value) ≡ b
unfolding tri_ne tri_eq
known_by true t h = h
known_by false t h = refl

-- A comparison is unknown exactly if the result is no success.
is_known-compare :
    (r : RwsResult) (a : XmlAttribute) (t : Text)
    → is_known (compare_single_content r a t) ≡ r.success
unfolding compare_single_content
is_known-compare r a t =
    known_by r.success (tri_of (text_eq (find_text_content r.document a) t))
      (is_known-tri_of (text_eq (find_text_content r.document a) t))

all_true_iff :
    (w a b c x y z : Bool)
    → w ≡ (a && b && c)
    → a ≡ x
    → b ≡ y
    → c ≡ z
    → (w ≡ true) ↔ ((x ≡ true) × (y ≡ true) × (z ≡ true))
all_true_iff w a b c x y z e ea eb ec = ground arith

module _ {Jar : Type 0} where
  -- A comparison that is returned is that of a result which was returned.
  compare_returns :
      (m : R Jar RwsResult) (a : XmlAttribute) (t : Text) (c d : RwsClient Jar) (tri : TriBool)
      → (m >>= λ rws_result. pure (compare_single_content rws_result a t)) c ≡ (done tri, d)
      → (r : RwsResult) × (m c ≡ (done r, d)) × (is_known tri ≡ r.success)
  compare_returns m a t c d tri e =
      let (r, c1, e1, rest) =
        and_run_returns (m c) (λ rws_result. pure (compare_single_content rws_result a t)) tri d
          e in
      let (same, so) = pure_returns (compare_single_content r a t) tri c1 d rest in
      (r, cc, ap is_known (sym same) ∙ is_known-compare r a t)

module _ {Jar : Type 0} (net : Net) (store : CookieStore Jar) (parse_xml : Text → Option Node) where
  -- collectRuntimeInfo that returns has asked for the operation mode, the controller's state and the execution,
  -- in this order, and says that it is connected exactly if all three results are successes.
  pub collect_runtime_info_connected_iff :
      (info : RuntimeInfo) (c d : RwsClient Jar)
      → collect_runtime_info net store parse_xml c ≡ (done info, d)
      → (r1 : RwsResult) × (r2 : RwsResult) × (r3 : RwsResult) × (c1 : RwsClient Jar)
        × (c2 : RwsClient Jar) × (get_panel_operation_mode net store parse_xml c ≡ (done r1, c1))
        × (get_panel_controller_state net store parse_xml c1 ≡ (done r2, c2))
        × (get_rapid_execution net store parse_xml c2 ≡ (done r3, d))
        × ((info.rws_connected ≡ true)
            ↔ ((r1.success ≡ true) × (r2.success ≡ true) × (r3.success ≡ true)))
  unfolding collect_runtime_info is_auto_mode is_motors_on is_rapid_running
  collect_runtime_info_connected_iff info c d e =
      let (auto_mode, c1, e1, rest1) =
        and_run_returns (is_auto_mode net store parse_xml c) _ info d e in
      let (motors_on, c2, e2, rest2) =
        and_run_returns (is_motors_on net store parse_xml c1) _ info d rest1 in
      let (rapid_running, c3, e3, rest3) =
        and_run_returns (is_rapid_running net store parse_xml c2) _ info d rest2 in
      let (r1, f1, k1) =
        compare_returns (get_panel_operation_mode net store parse_xml) _ _ c c1 auto_mode e1 in
      let (r2, f2, k2) =
        compare_returns (get_panel_controller_state net store parse_xml) _ _ c1 c2 motors_on e2 in
      let (r3, f3, k3) =
        compare_returns (get_rapid_execution net store parse_xml) _ _ c2 c3 rapid_running e3 in
      let (same, so) = pure_returns _ info c3 d rest3 in
      (
        r1,
        r2,
        r3,
        c1,
        c2,
        f1,
        f2,
        f3 ∙ ap (λ last. (done r3, last)) so,
        all_true_iff info.rws_connected (is_known auto_mode) (is_known motors_on)
            (is_known rapid_running) r1.success r2.success r3.success
            (ap (λ (i : RuntimeInfo). i.rws_connected) (sym same)) k1 k2 k3,
      )
