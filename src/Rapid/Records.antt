-- ===== src/Rapid/Records.antt =====
-- The record classes of include/abb_librws/rws_rapid.h, as the trees of their components in the order in
-- which the constructors push them.
use abb_librws.Base.{Bool, Text, codes, List, [], ◌∷◌}
use abb_librws.Rapid.Symbols.{Symbol, bool, num, string, struct, Components, nil, cons}

-- Components that are all numbers
abbrev pub nums : {Num Dnum : Type 0} → List Num → Components Num Dnum
nums [] = nil
nums (x ∷ xs) = cons (num x) (nums xs)

abbrev pub all_of : {Num Dnum : Type 0} → List (Symbol Num Dnum) → Components Num Dnum
all_of [] = nil
all_of (s ∷ ss) = cons s (all_of ss)

-- RobJoint
pub record RobJoint (Num : Type 0) : Type 0 where
  pub rax_1 : Num
  pub rax_2 : Num
  pub rax_3 : Num
  pub rax_4 : Num
  pub rax_5 : Num
  pub rax_6 : Num

abbrev pub rob_joint_symbol : {Num Dnum : Type 0} → RobJoint Num → Symbol Num Dnum
rob_joint_symbol r =
    struct (codes "robjoint")
      (nums (r.rax_1 ∷ r.rax_2 ∷ r.rax_3 ∷ r.rax_4 ∷ r.rax_5 ∷ r.rax_6 ∷ []))

-- ExtJoint
pub record ExtJoint (Num : Type 0) : Type 0 where
  pub eax_a : Num
  pub eax_b : Num
  pub eax_c : Num
  pub eax_d : Num
  pub eax_e : Num
  pub eax_f : Num

abbrev pub ext_joint_symbol : {Num Dnum : Type 0} → ExtJoint Num → Symbol Num Dnum
ext_joint_symbol r =
    struct (codes "extjoint")
      (nums (r.eax_a ∷ r.eax_b ∷ r.eax_c ∷ r.eax_d ∷ r.eax_e ∷ r.eax_f ∷ []))

-- JointTarget
pub record JointTarget (Num : Type 0) : Type 0 where
  pub robax : RobJoint Num
  pub extax : ExtJoint Num

abbrev pub joint_target_symbol : {Num Dnum : Type 0} → JointTarget Num → Symbol Num Dnum
joint_target_symbol r =
    struct (codes "jointtarget") (all_of (rob_joint_symbol r.robax ∷ ext_joint_symbol r.extax ∷ []))

-- Pos
pub record Pos (Num : Type 0) : Type 0 where
  pub x : Num
  pub y : Num
  pub z : Num

abbrev pub pos_symbol : {Num Dnum : Type 0} → Pos Num → Symbol Num Dnum
pos_symbol r = struct (codes "pos") (nums (r.x ∷ r.y ∷ r.z ∷ []))

-- Orient
pub record Orient (Num : Type 0) : Type 0 where
  pub q1 : Num
  pub q2 : Num
  pub q3 : Num
  pub q4 : Num

abbrev pub orient_symbol : {Num Dnum : Type 0} → Orient Num → Symbol Num Dnum
orient_symbol r = struct (codes "orient") (nums (r.q1 ∷ r.q2 ∷ r.q3 ∷ r.q4 ∷ []))

-- Pose
pub record Pose (Num : Type 0) : Type 0 where
  pub pos : Pos Num
  pub rot : Orient Num

abbrev pub pose_symbol : {Num Dnum : Type 0} → Pose Num → Symbol Num Dnum
pose_symbol r = struct (codes "pose") (all_of (pos_symbol r.pos ∷ orient_symbol r.rot ∷ []))

-- ConfData
pub record ConfData (Num : Type 0) : Type 0 where
  pub cf1 : Num
  pub cf4 : Num
  pub cf6 : Num
  pub cfx : Num

abbrev pub conf_data_symbol : {Num Dnum : Type 0} → ConfData Num → Symbol Num Dnum
conf_data_symbol r = struct (codes "confdata") (nums (r.cf1 ∷ r.cf4 ∷ r.cf6 ∷ r.cfx ∷ []))

-- RobTarget
pub record RobTarget (Num : Type 0) : Type 0 where
  pub pos : Pos Num
  pub orient : Orient Num
  pub robconf : ConfData Num
  pub extax : ExtJoint Num

abbrev pub rob_target_symbol : {Num Dnum : Type 0} → RobTarget Num → Symbol Num Dnum
rob_target_symbol r = struct (codes "robtarget") (
    all_of (
      pos_symbol r.pos
      ∷ orient_symbol r.orient
      ∷ conf_data_symbol r.robconf
      ∷ ext_joint_symbol r.extax
      ∷ []))

-- LoadData
pub record LoadData (Num : Type 0) : Type 0 where
  pub mass : Num
  pub cog : Pos Num
  pub aom : Orient Num
  pub ix : Num
  pub iy : Num
  pub iz : Num

abbrev pub load_data_symbol : {Num Dnum : Type 0} → LoadData Num → Symbol Num Dnum
load_data_symbol r = struct (codes "loaddata") (
    all_of
      (num r.mass ∷ pos_symbol r.cog ∷ orient_symbol r.aom ∷ num r.ix ∷ num r.iy ∷ num r.iz ∷ []))

-- ToolData
pub record ToolData (Num : Type 0) : Type 0 where
  pub robhold : Bool
  pub tframe : Pose Num
  pub tload : LoadData Num

abbrev pub tool_data_symbol : {Num Dnum : Type 0} → ToolData Num → Symbol Num Dnum
tool_data_symbol r =
    struct (codes "tooldata")
      (all_of (bool r.robhold ∷ pose_symbol r.tframe ∷ load_data_symbol r.tload ∷ []))

-- WObjData
pub record WobjData (Num : Type 0) : Type 0 where
  pub robhold : Bool
  pub ufprog : Bool
  pub ufmec : Text
  pub uframe : Pose Num
  pub oframe : Pose Num

abbrev pub wobj_data_symbol : {Num Dnum : Type 0} → WobjData Num → Symbol Num Dnum
wobj_data_symbol r = struct (codes "wobjdata") (
    all_of (
      bool r.robhold
      ∷ bool r.ufprog
      ∷ string r.ufmec
      ∷ pose_symbol r.uframe
      ∷ pose_symbol r.oframe
      ∷ []))

-- SpeedData
pub record SpeedData (Num : Type 0) : Type 0 where
  pub v_tcp : Num
  pub v_ori : Num
  pub v_leax : Num
  pub v_reax : Num

abbrev pub speed_data_symbol : {Num Dnum : Type 0} → SpeedData Num → Symbol Num Dnum
speed_data_symbol r =
    struct (codes "speeddata") (nums (r.v_tcp ∷ r.v_ori ∷ r.v_leax ∷ r.v_reax ∷ []))
