-- ===== src/Interface/Configuration/Read/Joints.antt =====
-- What getCFGJoints returns.
use abb_librws.Base.{
  ◌≡◌, ◌≢◌, refl, sym, ap, text_eq, if◌then◌else◌, Text, codes, true, List, [], ◌∷◌, Option, none,
  some, All,
}
use mathlib.Core.Option.{map}
use abb_librws.Xml.{Node, find_nodes}
use abb_librws.Rapid.Numbers.{ℤ, Conversions}
use abb_librws.Poco.Types.{done}
use abb_librws.Poco.Work.{Net, CookieStore}
use abb_librws.Client.Types.{RwsClient, RwsResult}
use abb_librws.Client.Constants.{class_attribute}
use abb_librws.Client.Requests.{get_configuration_instances}
use abb_librws.Interface.Configuration.{
  is_titled, value_of, required, input, read_attributes, read_instance, get_instances,
}
use abb_librws.Interface.Configuration.Motion.{
  Joint, set_name, set_logical_axis, set_kinematic_axis_number, set_use_arm, set_use_transmission,
  new_joint, joint_branches, get_cfg_joints,
}
use abb_librws.Interface.Configuration.Read.{
  HasOneTitle, IsBranchOf, IsReadable, last_value, Matches, required_field, input_field,
  titled_branch, read_attributes-field, read_attributes_reads, read_instances_reads,
}

abbrev pub instances_of : Option Node → List Node
instances_of document = find_nodes document (class_attribute (codes "cfg-dt-instance-li"))

abbrev pub attributes_of : Node → List Node
attributes_of instance' = find_nodes (some instance') (class_attribute (codes "cfg-ia-t-li"))

abbrev pub text_itself : Text → Text
text_itself t = t

module _ {Num Dnum : Type 0} (conversions : Conversions Num Dnum) where
  -- An attribute with one title, and with a value that is a text or a number where the title wants one
  abbrev pub IsJointAttribute : Node → Type 0
  IsJointAttribute attribute =
      HasOneTitle attribute
      × (is_titled (codes "name") attribute ≡ true → value_of attribute ≢ [])
      × (is_titled (codes "logical_axis") attribute ≡ true
          → (n : ℤ) × (conversions.input_int (value_of attribute) ≡ some n))
      × (is_titled (codes "kinematic_axis_number") attribute ≡ true
          → (n : ℤ) × (conversions.input_int (value_of attribute) ≡ some n))
      × (is_titled (codes "use_arm") attribute ≡ true → value_of attribute ≢ [])
      × (is_titled (codes "use_transmission") attribute ≡ true → value_of attribute ≢ [])

  -- Every member has what the last attribute with its title says.
  abbrev pub IsJointOf : Node → Joint → Type 0
  IsJointOf instance' joint =
      (joint.name ≡ last_value (codes "name") text_itself (attributes_of instance') [])
      × (joint.logical_axis
          ≡ last_value (codes "logical_axis") conversions.input_int (attributes_of instance') none)
      × (joint.kinematic_axis_number
          ≡ last_value (codes "kinematic_axis_number") conversions.input_int
              (attributes_of instance') none)
      × (joint.use_arm ≡ last_value (codes "use_arm") text_itself (attributes_of instance') [])
      × (joint.use_transmission
          ≡ last_value (codes "use_transmission") text_itself (attributes_of instance') [])

  required_reads :
      {A : Type 0} (set : Text → A → A) (v : Text) (a : A)
      → v ≢ []
      → (b : A) × (required set v a ≡ some b)
  required_reads set [] a h = absurd (h refl)
  required_reads set (c ∷ v) a h = (set (c ∷ v) a, refl)

  input_reads :
      {A N : Type 0} (read : Text → Option N) (set : N → A → A) (v : Text) (a : A)
      → (n : N) × (read v ≡ some n)
      → (b : A) × (input read set v a ≡ some b)
  input_reads read set v a (n, e) = (set n a, ap (map (λ m. set m a)) e)

  joint_attribute-IsReadable :
      (attribute : Node)
      → IsJointAttribute attribute
      → IsReadable (joint_branches conversions) attribute
  unfolding joint_branches
  joint_attribute-IsReadable attribute
        (one, name, logical_axis, kinematic_axis_number, use_arm, use_transmission) =
      (
        (λ t a. required_reads set_name (value_of attribute) a (name t)),
        (
          (λ t a.
              input_reads conversions.input_int set_logical_axis (value_of attribute) a
                (logical_axis t)),
          (
            (λ t a.
                input_reads conversions.input_int set_kinematic_axis_number (value_of attribute) a
                  (kinematic_axis_number t)),
            (
              (λ t a. required_reads set_use_arm (value_of attribute) a (use_arm t)),
              (
                (λ t a.
                    required_reads set_use_transmission (value_of attribute) a
                      (use_transmission t)),
                tt,
              ),
            ),
          ),
        ),
      )

  module _ {V : Type 0} (field : Joint → V) (title : Text) (value : Text → V) where
    -- The field after a branch
    abbrev left : Text → Text → Joint → V
    left t v a = if text_eq t title then value v else field a

    -- A joint's branches leave a field as its assignments do.
    joint_branches-IsBranchOf :
        ((v : Text) (a : Joint) → field (set_name v a) ≡ left (codes "name") v a)
        → ((v : Text) (n : ℤ) (a : Joint)
            → conversions.input_int v ≡ some n
            → field (set_logical_axis n a) ≡ left (codes "logical_axis") v a)
        → ((v : Text) (n : ℤ) (a : Joint)
            → conversions.input_int v ≡ some n
            → field (set_kinematic_axis_number n a) ≡ left (codes "kinematic_axis_number") v a)
        → ((v : Text) (a : Joint) → field (set_use_arm v a) ≡ left (codes "use_arm") v a)
        → ((v : Text) (a : Joint)
            → field (set_use_transmission v a) ≡ left (codes "use_transmission") v a)
        → All (IsBranchOf field title value) (joint_branches conversions)
    unfolding joint_branches
    joint_branches-IsBranchOf h1 h2 h3 h4 h5 = (
      required_field field set_name (left (codes "name")) h1,
      (
        input_field field conversions.input_int set_logical_axis (left (codes "logical_axis")) h2,
        (
          input_field field conversions.input_int set_kinematic_axis_number
              (left (codes "kinematic_axis_number")) h3,
          (
            required_field field set_use_arm (left (codes "use_arm")) h4,
            (required_field field set_use_transmission (left (codes "use_transmission")) h5, tt),
          ),
        ),
      ),
    )

    -- So a field has what the last attribute with its title says, once an instance is read.
    read_joint-field :
        ((v : Text) (a : Joint) → field (set_name v a) ≡ left (codes "name") v a)
        → ((v : Text) (n : ℤ) (a : Joint)
            → conversions.input_int v ≡ some n
            → field (set_logical_axis n a) ≡ left (codes "logical_axis") v a)
        → ((v : Text) (n : ℤ) (a : Joint)
            → conversions.input_int v ≡ some n
            → field (set_kinematic_axis_number n a) ≡ left (codes "kinematic_axis_number") v a)
        → ((v : Text) (a : Joint) → field (set_use_arm v a) ≡ left (codes "use_arm") v a)
        → ((v : Text) (a : Joint)
            → field (set_use_transmission v a) ≡ left (codes "use_transmission") v a)
        → titled_branch title (joint_branches conversions) ≡ true
        → (attributes : List Node) (joint : Joint) → All HasOneTitle attributes
        → read_attributes (joint_branches conversions) attributes new_joint ≡ some joint
        → field joint ≡ last_value title value attributes (field new_joint)
    read_joint-field h1 h2 h3 h4 h5 titled attributes joint one e =
        read_attributes-field field title value (joint_branches conversions) attributes new_joint
          joint (joint_branches-IsBranchOf h1 h2 h3 h4 h5) titled one e

  HaveOneTitle :
      (attributes : List Node) → All IsJointAttribute attributes → All HasOneTitle attributes
  HaveOneTitle [] h = tt
  HaveOneTitle (n ∷ ns) h = (h.0.0, HaveOneTitle ns h.1)

  AreReadable :
      (attributes : List Node)
      → All IsJointAttribute attributes
      → All (IsReadable (joint_branches conversions)) attributes
  AreReadable [] h = tt
  AreReadable (n ∷ ns) h = (joint_attribute-IsReadable n h.0, AreReadable ns h.1)

  read_joint :
      (instance' : Node)
      → All IsJointAttribute (attributes_of instance')
      → (joint : Joint) × (read_instance (joint_branches conversions) new_joint instance'
          ≡ some joint)
        × IsJointOf instance' joint
  unfolding read_instance joint_branches text_eq
  read_joint instance' h =
      let attributes = attributes_of instance' in
      let one = HaveOneTitle attributes h in
      let (joint, e) =
        read_attributes_reads (joint_branches conversions) attributes new_joint
          (AreReadable attributes h) in
      (
        joint,
        e,
        (
          read_joint-field (λ j. j.name) (codes "name") text_itself (λ v a. refl) (λ v n a r. refl)
              (λ v n a r. refl) (λ v a. refl) (λ v a. refl) refl attributes joint one e,
          read_joint-field (λ j. j.logical_axis) (codes "logical_axis") conversions.input_int
              (λ v a. refl) (λ v n a r. sym r) (λ v n a r. refl) (λ v a. refl) (λ v a. refl) refl
              attributes joint one e,
          read_joint-field (λ j. j.kinematic_axis_number) (codes "kinematic_axis_number")
              conversions.input_int (λ v a. refl) (λ v n a r. refl) (λ v n a r. sym r) (λ v a. refl)
              (λ v a. refl) refl attributes joint one e,
          read_joint-field (λ j. j.use_arm) (codes "use_arm") text_itself (λ v a. refl)
              (λ v n a r. refl) (λ v n a r. refl) (λ v a. refl) (λ v a. refl) refl attributes joint
              one e,
          read_joint-field (λ j. j.use_transmission) (codes "use_transmission") text_itself
              (λ v a. refl) (λ v n a r. refl) (λ v n a r. refl) (λ v a. refl) (λ v a. refl) refl
              attributes joint one e,
        ),
      )

  read_joints :
      (instances : List Node)
      → All (λ instance'. All IsJointAttribute (attributes_of instance')) instances
      → All
          (λ instance'.
            (joint : Joint) × (read_instance (joint_branches conversions) new_joint instance'
              ≡ some joint)
            × IsJointOf instance' joint)
          instances
  read_joints [] h = tt
  read_joints (n ∷ ns) h = (read_joint n h.0, read_joints ns h.1)

  -- If the request for the joints is a success, and in the document every attribute of every instance has at most
  -- one title, a text that is not empty where the title wants a text, and a number where it wants a number,
  -- then getCFGJoints returns one joint for each instance, in their order, whose members are each what the last
  -- attribute with the member's title says.
  pub get_cfg_joints_reads :
      {Jar : Type 0} (net : Net) (store : CookieStore Jar) (parse_xml : Text → Option Node)
      (rws_result : RwsResult) (c d : RwsClient Jar)
      → get_configuration_instances net store parse_xml (codes "MOC") (codes "JOINT") c
        ≡ (done rws_result, d)
      → rws_result.success ≡ true
      → All
          (λ instance'. All IsJointAttribute (attributes_of instance'))
          (instances_of rws_result.document)
      → (joints : List Joint) × (get_cfg_joints conversions net store parse_xml c
          ≡ (done joints, d))
        × Matches IsJointOf (instances_of rws_result.document) joints
  unfolding get_cfg_joints get_instances
  get_cfg_joints_reads net store parse_xml rws_result c d e s h =
      let (joints, read, matches) =
        read_instances_reads (read_instance (joint_branches conversions) new_joint) IsJointOf
          (instances_of rws_result.document) (read_joints (instances_of rws_result.document) h) in
      (joints, rw (e, s, read) refl, matches)
