-- ===== src/Interface/Configuration/Motion.antt =====
-- The types of the motion domain in include/abb_librws/rws_cfg.h, and the methods of src/rws_interface.cpp that
-- read their instances. A member that its constructor leaves without a value is an `Option`.
use abb_librws.Base.{
  Text, codes, is_empty, text_eq, Bool, List, [], ◌∷◌, ◌++◌, if◌then◌else◌, Option, none, some,
}
use abb_librws.Xml.{Node, node_get_attribute_value}
use abb_librws.Rapid.Numbers.{ℤ, Conversions}
use abb_librws.Rapid.Records.{Pose}
use abb_librws.Poco.Work.{Net, CookieStore}
use abb_librws.Client.Types.{R}
use abb_librws.Interface.Configuration.{
  Branch, required, allowed, input, read_instance, get_instances,
}

-- Arm
pub record Arm (Dnum : Type 0) : Type 0 where
  pub name : Text
  pub lower_joint_bound : Option Dnum
  pub upper_joint_bound : Option Dnum

-- Joint
pub record Joint : Type 0 where
  pub name : Text
  pub logical_axis : Option ℤ
  pub kinematic_axis_number : Option ℤ
  pub use_arm : Text
  pub use_transmission : Text

-- MechanicalUnit
pub record MechanicalUnit : Type 0 where
  pub name : Text
  pub use_robot : Text
  pub use_singles : List Text

-- Robot
pub record Robot (Num : Type 0) : Type 0 where
  pub name : Text
  pub use_robot_type : Text
  pub use_joints : List Text
  pub base_frame : Pose Num
  pub base_frame_moved_by : Text

-- Single
pub record Single (Num : Type 0) : Type 0 where
  pub name : Text
  pub use_single_type : Text
  pub use_joint : Text
  pub base_frame : Pose Num
  pub base_frame_coordinated : Text

-- Transmission
pub record Transmission : Type 0 where
  pub name : Text
  pub rotating_move : Option Bool

-- The assignments to the members of a joint
abbrev pub set_name : Text → Joint → Joint
set_name t joint = record joint { name = t }

abbrev pub set_logical_axis : ℤ → Joint → Joint
set_logical_axis n joint = record joint { logical_axis = some n }

abbrev pub set_kinematic_axis_number : ℤ → Joint → Joint
set_kinematic_axis_number n joint = record joint { kinematic_axis_number = some n }

abbrev pub set_use_arm : Text → Joint → Joint
set_use_arm t joint = record joint { use_arm = t }

abbrev pub set_use_transmission : Text → Joint → Joint
set_use_transmission t joint = record joint { use_transmission = t }

-- The chains of tests that the methods go through
unfoldable pub joint_branches : {Num Dnum : Type 0} → Conversions Num Dnum → List (Branch Joint)
joint_branches conversions =
    (codes "name", required set_name)
    ∷ (codes "logical_axis", input conversions.input_int set_logical_axis)
    ∷ (codes "kinematic_axis_number", input conversions.input_int set_kinematic_axis_number)
    ∷ (codes "use_arm", required set_use_arm)
    ∷ (codes "use_transmission", required set_use_transmission)
    ∷ []

abbrev pub new_joint : Joint
new_joint = record {
  name = [];
  logical_axis = none;
  kinematic_axis_number = none;
  use_arm = [];
  use_transmission = [];
}

unfoldable pub mechanical_unit_branches : List (Branch MechanicalUnit)
mechanical_unit_branches =
    let use_single =
      allowed
        λ t (unit : MechanicalUnit). record unit { use_singles = unit.use_singles ++ t ∷ [] } in
    (codes "name", required λ t unit. record unit { name = t })
    ∷ (codes "use_robot", allowed λ t unit. record unit { use_robot = t })
    ∷ (codes "use_single_0", use_single)
    ∷ (codes "use_single_1", use_single)
    ∷ (codes "use_single_2", use_single)
    ∷ (codes "use_single_3", use_single)
    ∷ (codes "use_single_4", use_single)
    ∷ (codes "use_single_5", use_single)
    ∷ []

abbrev pub new_mechanical_unit : MechanicalUnit
new_mechanical_unit = record { name = []; use_robot = []; use_singles = [] }

unfoldable pub transmission_branches : List (Branch Transmission)
transmission_branches =
    (
      codes "rotating_move",
      required
          λ t transmission. record transmission { rotating_move = some (text_eq t (codes "true")) },
    )
    ∷ []

-- A transmission's name is the instance's title.
unfoldable pub read_transmission : Node → Option Transmission
read_transmission instance' =
    let name = node_get_attribute_value instance' (codes "title") in
    if is_empty name
    then none
    else read_instance transmission_branches (record { name = name; rotating_move = none })
        instance'

module _ {Num Dnum : Type 0} (conversions : Conversions Num Dnum) where
  unfoldable pub arm_branches : List (Branch (Arm Dnum))
  arm_branches =
      (codes "name", required λ t arm. record arm { name = t })
      ∷ (
        codes "lower_joint_bound",
        input conversions.input_dnum λ x arm. record arm { lower_joint_bound = some x },
      )
      ∷ (
        codes "upper_joint_bound",
        input conversions.input_dnum λ x arm. record arm { upper_joint_bound = some x },
      )
      ∷ []

  abbrev pub new_arm : Arm Dnum
  new_arm = record { name = []; lower_joint_bound = none; upper_joint_bound = none }

  -- The branches for the base frame: a position is given in metres, and kept in millimetres.
  unfoldable pub frame_branches : {A : Type 0} → ((Pose Num → Pose Num) → A → A) → List (Branch A)
  frame_branches change =
      (
        codes "base_frame_pos_x",
        input conversions.input_num
            λ n. change λ f. record f { pos = record (f.pos) { x = conversions.times_1000 n } },
      )
      ∷ (
        codes "base_frame_pos_y",
        input conversions.input_num
            λ n. change λ f. record f { pos = record (f.pos) { y = conversions.times_1000 n } },
      )
      ∷ (
        codes "base_frame_pos_z",
        input conversions.input_num
            λ n. change λ f. record f { pos = record (f.pos) { z = conversions.times_1000 n } },
      )
      ∷ (
        codes "base_frame_orient_u0",
        input conversions.input_num λ n. change λ f. record f { rot = record (f.rot) { q1 = n } },
      )
      ∷ (
        codes "base_frame_orient_u1",
        input conversions.input_num λ n. change λ f. record f { rot = record (f.rot) { q2 = n } },
      )
      ∷ (
        codes "base_frame_orient_u2",
        input conversions.input_num λ n. change λ f. record f { rot = record (f.rot) { q3 = n } },
      )
      ∷ (
        codes "base_frame_orient_u3",
        input conversions.input_num λ n. change λ f. record f { rot = record (f.rot) { q4 = n } },
      )
      ∷ []

  unfoldable pub robot_branches : List (Branch (Robot Num))
  robot_branches =
      let use_joint =
        allowed λ t (robot : Robot Num). record robot { use_joints = robot.use_joints ++ t ∷ [] } in
      (codes "name", required λ t robot. record robot { name = t })
      ∷ (codes "use_robot_type", required λ t robot. record robot { use_robot_type = t })
      ∷ (codes "use_joint_0", use_joint)
      ∷ (codes "use_joint_1", use_joint)
      ∷ (codes "use_joint_2", use_joint)
      ∷ (codes "use_joint_3", use_joint)
      ∷ (codes "use_joint_4", use_joint)
      ∷ (codes "use_joint_5", use_joint)
      ∷ (frame_branches (λ change robot. record robot { base_frame = change robot.base_frame })
          ++ (
            codes "base_frame_coordinated",
            allowed λ t robot. record robot { base_frame_moved_by = t },
          )
            ∷ [])

  unfoldable pub single_branches : List (Branch (Single Num))
  single_branches =
      (codes "name", required λ t single. record single { name = t })
      ∷ (codes "use_single_type", required λ t single. record single { use_single_type = t })
      ∷ (codes "use_joint", required λ t single. record single { use_joint = t })
      ∷ (frame_branches (λ change single. record single { base_frame = change single.base_frame })
          ++ (
            codes "base_frame_coordinated",
            allowed λ t single. record single { base_frame_coordinated = t },
          )
            ∷ [])

  -- The default constructor of Pose
  abbrev pub new_pose : Pose Num
  new_pose =
      let zero = conversions.of_nat 0 in
      record {
        pos = record { x = zero; y = zero; z = zero };
        rot = record { q1 = zero; q2 = zero; q3 = zero; q4 = zero };
      }

  abbrev pub new_robot : Robot Num
  new_robot = record {
    name = [];
    use_robot_type = [];
    use_joints = [];
    base_frame = new_pose;
    base_frame_moved_by = [];
  }

  abbrev pub new_single : Single Num
  new_single = record {
    name = [];
    use_single_type = [];
    use_joint = [];
    base_frame = new_pose;
    base_frame_coordinated = [];
  }

module _ {Jar Num Dnum : Type 0} (conversions : Conversions Num Dnum) (net : Net)
    (store : CookieStore Jar) (parse_xml : Text → Option Node) where
  -- getCFGArms
  unfoldable pub get_cfg_arms : R Jar (List (Arm Dnum))
  get_cfg_arms =
      get_instances net store parse_xml (codes "moc") (codes "arm")
        (read_instance (arm_branches conversions) (new_arm conversions))

  -- getCFGJoints
  unfoldable pub get_cfg_joints : R Jar (List Joint)
  get_cfg_joints =
      get_instances net store parse_xml (codes "MOC") (codes "JOINT")
        (read_instance (joint_branches conversions) new_joint)

  -- getCFGRobots
  unfoldable pub get_cfg_robots : R Jar (List (Robot Num))
  get_cfg_robots =
      get_instances net store parse_xml (codes "moc") (codes "robot")
        (read_instance (robot_branches conversions) (new_robot conversions))

  -- getCFGSingles
  unfoldable pub get_cfg_singles : R Jar (List (Single Num))
  get_cfg_singles =
      get_instances net store parse_xml (codes "moc") (codes "single")
        (read_instance (single_branches conversions) (new_single conversions))

module _ {Jar : Type 0} (net : Net) (store : CookieStore Jar) (parse_xml : Text → Option Node) where
  -- getCFGMechanicalUnits
  unfoldable pub get_cfg_mechanical_units : R Jar (List MechanicalUnit)
  get_cfg_mechanical_units =
      get_instances net store parse_xml (codes "moc") (codes "mechanical_unit")
        (read_instance mechanical_unit_branches new_mechanical_unit)

  -- getCFGTransmission
  unfoldable pub get_cfg_transmission : R Jar (List Transmission)
  get_cfg_transmission =
      get_instances net store parse_xml (codes "MOC") (codes "TRANSMISSION") read_transmission
