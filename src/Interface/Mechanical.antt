-- ===== src/Interface/Mechanical.antt =====
-- What src/rws_interface.cpp reads of a mechanical unit: its static and dynamic information, and its targets.
pub mod Targets
pub mod Groups
pub mod Documents
use abb_librws.Base.{
  Text, codes, is_empty, text_eq, not, ◌&&◌, Bool, true, false, List, [], ◌∷◌, ◌++◌, if◌then◌else◌,
  Option, none, some,
}
use abb_librws.Xml.{Node, find_text_content}
use abb_librws.Rapid.Atoms.{Floats}
use abb_librws.Rapid.Symbols.{Symbol, parse}
use abb_librws.Rapid.Numbers.{ℤ, Conversions}
use abb_librws.Poco.Work.{Net, CookieStore}
use abb_librws.Client.Types.{RwsResult, Coordinate, base, world, tool, wobj, R, ◌>>=◌, pure}
use abb_librws.Client.Constants.{class_attribute}
use abb_librws.Client.Requests
use abb_librws.Client.Requests.{parse_into}

-- MechanicalUnitType
pub data MechanicalUnitType : Type 0 where
  no_type tcp_robot robot single undefined : MechanicalUnitType

-- MechanicalUnitMode
pub data MechanicalUnitMode : Type 0 where
  unknown_mode activated deactivated : MechanicalUnitMode

-- MechanicalUnitStaticInfo; a number is `none` where its input failed, which leaves in it what the stream
-- decides.
pub record MechanicalUnitStaticInfo : Type 0 where
  pub type : MechanicalUnitType
  pub task_name : Text
  pub axes : Option ℤ
  pub axes_total : Option ℤ
  pub is_integrated_unit : Text
  pub has_integrated_unit : Text

-- MechanicalUnitDynamicInfo
pub record MechanicalUnitDynamicInfo : Type 0 where
  pub tool_name : Text
  pub wobj_name : Text
  pub payload_name : Text
  pub total_payload_name : Text
  pub status : Text
  pub mode : MechanicalUnitMode
  pub jog_mode : Text
  pub coord_system : Coordinate

-- `xmlFindTextContent(rws_result.p_xml_document, XMLAttribute("class", …))`
abbrev pub content : Option Node → Text → Text
content document value = find_text_content document (class_attribute value)

-- The chains of tests on the texts
unfoldable pub unit_type_of : Text → MechanicalUnitType
unit_type_of type =
    if text_eq type (codes "None")
    then no_type
    else if text_eq type (codes "TCPRobot")
    then tcp_robot
    else if text_eq type (codes "Robot")
    then robot
    else if text_eq type (codes "Single")
    then single
    else undefined

unfoldable pub unit_mode_of : Text → MechanicalUnitMode
unit_mode_of mode =
    if text_eq mode (codes "Activated")
    then activated
    else if text_eq mode (codes "Deactivated")
    then deactivated
    else unknown_mode

unfoldable pub coord_system_of : Text → Coordinate
coord_system_of coord_system =
    if text_eq coord_system (codes "Base")
    then base
    else if text_eq coord_system (codes "Tool")
    then tool
    else if text_eq coord_system (codes "Wobj")
    then wobj
    else world

abbrev pub is_defined : MechanicalUnitType → Bool
is_defined undefined = false
is_defined _ = true

abbrev pub is_known : MechanicalUnitMode → Bool
is_known unknown_mode = false
is_known _ = true

-- `!stream.fail()`
abbrev pub has_value {ℓ} : {A : Type ℓ} → Option A → Bool
has_value none = false
has_value (some a) = true

-- The verification at the end of getMechanicalUnitStaticInfo
unfoldable pub static_info_verified : MechanicalUnitStaticInfo → Bool
static_info_verified static_info =
    not (is_empty static_info.task_name)
    && not (is_empty static_info.is_integrated_unit)
    && not (is_empty static_info.has_integrated_unit)
    && is_defined static_info.type
    && has_value static_info.axes
    && has_value static_info.axes_total

-- The verification at the end of getMechanicalUnitDynamicInfo
unfoldable pub dynamic_info_verified : MechanicalUnitDynamicInfo → Bool
dynamic_info_verified dynamic_info =
    not (is_empty dynamic_info.tool_name)
    && not (is_empty dynamic_info.wobj_name)
    && not (is_empty dynamic_info.payload_name)
    && not (is_empty dynamic_info.total_payload_name)
    && not (is_empty dynamic_info.status)
    && not (is_empty dynamic_info.jog_mode)
    && is_known dynamic_info.mode

-- What a document says of a unit
unfoldable pub static_info_of :
    {Num Dnum : Type 0} → Conversions Num Dnum → Option Node → MechanicalUnitStaticInfo
static_info_of conversions document = record {
  type = unit_type_of (content document (codes "type"));
  task_name = content document (codes "task-name");
  axes = conversions.input_int (content document (codes "axes"));
  axes_total = conversions.input_int (content document (codes "axes-total"));
  is_integrated_unit = content document (codes "is-integrated-unit");
  has_integrated_unit = content document (codes "has-integrated-unit");
}

unfoldable pub dynamic_info_of : Option Node → MechanicalUnitDynamicInfo
dynamic_info_of document = record {
  tool_name = content document (codes "tool-name");
  wobj_name = content document (codes "wobj-name");
  payload_name = content document (codes "payload-name");
  total_payload_name = content document (codes "total-payload-name");
  status = content document (codes "status");
  mode = unit_mode_of (content document (codes "mode"));
  jog_mode = content document (codes "jog-mode");
  coord_system = coord_system_of (content document (codes "coord-system"));
}

-- The contents of some classes, with commas between them
unfoldable pub contents : Option Node → Text → List Text → Text
contents document first [] = content document first
contents document first (next ∷ rest) =
    content document first ++ codes "," ++ contents document next rest

abbrev pub eax_contents : Option Node → Text
eax_contents document =
    contents document (codes "eax_a")
      (codes "eax_b" ∷ codes "eax_c" ∷ codes "eax_d" ∷ codes "eax_e" ∷ codes "eax_f" ∷ [])

unfoldable pub joint_target_text : Option Node → Text
joint_target_text document =
    codes "[["
    ++ contents document (codes "rax_1")
        (codes "rax_2" ∷ codes "rax_3" ∷ codes "rax_4" ∷ codes "rax_5" ∷ codes "rax_6" ∷ [])
    ++ codes "], ["
    ++ eax_contents document
    ++ codes "]]"

unfoldable pub rob_target_text : Option Node → Text
rob_target_text document =
    codes "[["
    ++ contents document (codes "x") (codes "y" ∷ codes "z" ∷ [])
    ++ codes "], ["
    ++ contents document (codes "q1") (codes "q2" ∷ codes "q3" ∷ codes "q4" ∷ [])
    ++ codes "], ["
    ++ contents document (codes "cf1") (codes "cf4" ∷ codes "cf6" ∷ codes "cfx" ∷ [])
    ++ codes "], ["
    ++ eax_contents document
    ++ codes "]]"

-- What both methods do with the target that their pointer points to: whether it is a success, and the target
abbrev pub read_target :
    {Jar Num Dnum : Type 0}
    → Floats Num Dnum
    → Symbol Num Dnum
    → (Option Node → Text)
    → RwsResult
    → R Jar (Bool × Option (Symbol Num Dnum))
read_target fl target text_of rws_result =
    if rws_result.success
    then (do
      after ← parse_into rws_result (parse fl target (text_of rws_result.document))
      pure (true, after.1))
    else pure (false, some target)

module _ {Jar : Type 0} (net : Net) (store : CookieStore Jar) (parse_xml : Text → Option Node) where
  -- getMechanicalUnitStaticInfo: whether it is a success, and the information
  unfoldable pub read_mechanical_unit_static_info :
      {Num Dnum : Type 0}
      → Conversions Num Dnum
      → Text
      → MechanicalUnitStaticInfo
      → R Jar (Bool × MechanicalUnitStaticInfo)
  read_mechanical_unit_static_info conversions mechunit static_info = do
    rws_result ← Requests.get_mechanical_unit_static_info net store parse_xml mechunit
    let read = static_info_of conversions rws_result.document
    pure (if rws_result.success then (static_info_verified read, read) else (false, static_info))

  -- getMechanicalUnitDynamicInfo
  unfoldable pub read_mechanical_unit_dynamic_info :
      Text → MechanicalUnitDynamicInfo → R Jar (Bool × MechanicalUnitDynamicInfo)
  read_mechanical_unit_dynamic_info mechunit dynamic_info = do
    rws_result ← Requests.get_mechanical_unit_dynamic_info net store parse_xml mechunit
    let read = dynamic_info_of rws_result.document
    pure (if rws_result.success then (dynamic_info_verified read, read) else (false, dynamic_info))

  -- getMechanicalUnitJointTarget, into the target that the pointer points to, if any
  unfoldable pub read_mechanical_unit_joint_target :
      {Num Dnum : Type 0}
      → Floats Num Dnum
      → Text
      → Option (Symbol Num Dnum)
      → R Jar (Bool × Option (Symbol Num Dnum))
  read_mechanical_unit_joint_target fl mechunit none = pure (false, none)
  read_mechanical_unit_joint_target fl mechunit (some target) = do
    rws_result ← Requests.get_mechanical_unit_joint_target net store parse_xml mechunit
    read_target fl target joint_target_text rws_result

  -- getMechanicalUnitRobTarget, into the target that the pointer points to, if any
  unfoldable pub read_mechanical_unit_rob_target :
      {Num Dnum : Type 0}
      → Floats Num Dnum
      → Text
      → Option (Symbol Num Dnum)
      → Coordinate
      → Text
      → Text
      → R Jar (Bool × Option (Symbol Num Dnum))
  read_mechanical_unit_rob_target fl mechunit none coordinate tool_name wobj_name =
      pure (false, none)
  read_mechanical_unit_rob_target fl mechunit (some target) coordinate tool_name wobj_name = do
    rws_result ←
        Requests.get_mechanical_unit_rob_target net store parse_xml mechunit coordinate tool_name
          wobj_name
    read_target fl target rob_target_text rws_result
