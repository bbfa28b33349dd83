-- ===== src/Interface/Mechanical/Documents.antt =====
-- What getMechanicalUnitJointTarget and getMechanicalUnitRobTarget leave in a target.
use abb_librws.Base.{
  ◌≡◌, refl, ap, ◌∙◌, true, Text, codes, List, [], ◌∷◌, ◌++◌, append_assoc, append-nil, Option,
  some, All, All-before, All-after,
}
use mathlib.Core.List.{map}
use abb_librws.Xml.{Node}
use abb_librws.Rapid.Atoms.{Floats, returned, construct_num}
use abb_librws.Rapid.Records.{
  ExtJoint, JointTarget, joint_target_symbol, RobTarget, rob_target_symbol,
}
use abb_librws.Rapid.Symbols.{parse, construct}
use abb_librws.Rapid.Symbols.Texts.{IsWord}
use abb_librws.Poco.Types.{done}
use abb_librws.Poco.Work.{Net, CookieStore}
use abb_librws.Client.Types.{RwsClient, RwsResult, Coordinate}
use abb_librws.Client.Requests
use abb_librws.Interface.Mechanical.{
  content, contents, joint_target_text, rob_target_text, read_mechanical_unit_joint_target,
  read_mechanical_unit_rob_target,
}
use abb_librws.Interface.Mechanical.Targets.{target_text}
use abb_librws.Interface.Mechanical.Groups.{Group, parse-target_text}

-- Every one of these classes has a word in the document.
abbrev pub HasWords : Option Node → List Text → Type 0
HasWords document = All (λ class'. IsWord (content document class'))

abbrev pub rax_classes : List Text
rax_classes =
    codes "rax_1"
    ∷ codes "rax_2"
    ∷ codes "rax_3"
    ∷ codes "rax_4"
    ∷ codes "rax_5"
    ∷ codes "rax_6"
    ∷ []

abbrev pub eax_classes : List Text
eax_classes =
    codes "eax_a"
    ∷ codes "eax_b"
    ∷ codes "eax_c"
    ∷ codes "eax_d"
    ∷ codes "eax_e"
    ∷ codes "eax_f"
    ∷ []

abbrev pub pos_classes : List Text
pos_classes = codes "x" ∷ codes "y" ∷ codes "z" ∷ []

abbrev pub orient_classes : List Text
orient_classes = codes "q1" ∷ codes "q2" ∷ codes "q3" ∷ codes "q4" ∷ []

abbrev pub conf_classes : List Text
conf_classes = codes "cf1" ∷ codes "cf4" ∷ codes "cf6" ∷ codes "cfx" ∷ []

joint_target_text_lem :
    (document : Option Node)
    → joint_target_text document
      ≡ target_text (map (content document) rax_classes) (map (content document) eax_classes ∷ [])
unfolding joint_target_text contents construct construct_num
joint_target_text_lem document = simp (append_assoc, append-nil)

rob_target_text_lem :
    (document : Option Node)
    → rob_target_text document
      ≡ target_text (map (content document) pos_classes) (
          map (content document) orient_classes
          ∷ map (content document) conf_classes
          ∷ map (content document) eax_classes
          ∷ [])
unfolding rob_target_text contents construct construct_num
rob_target_text_lem document = simp (append_assoc, append-nil)

module _ {Num Dnum : Type 0} (fl : Floats Num Dnum) (document : Option Node) where
  -- The number that is read from a class's text over an old one
  abbrev read : Text → Num → Num
  read class' old = fl.read_num (content document class') old

  abbrev read_ext_joint : ExtJoint Num → ExtJoint Num
  read_ext_joint old = record {
    eax_a = read (codes "eax_a") old.eax_a;
    eax_b = read (codes "eax_b") old.eax_b;
    eax_c = read (codes "eax_c") old.eax_c;
    eax_d = read (codes "eax_d") old.eax_d;
    eax_e = read (codes "eax_e") old.eax_e;
    eax_f = read (codes "eax_f") old.eax_f;
  }

  -- The joint target with every number read from its class
  abbrev pub read_joint_target : JointTarget Num → JointTarget Num
  read_joint_target old = record {
    robax = record {
      rax_1 = read (codes "rax_1") old.robax.rax_1;
      rax_2 = read (codes "rax_2") old.robax.rax_2;
      rax_3 = read (codes "rax_3") old.robax.rax_3;
      rax_4 = read (codes "rax_4") old.robax.rax_4;
      rax_5 = read (codes "rax_5") old.robax.rax_5;
      rax_6 = read (codes "rax_6") old.robax.rax_6;
    };
    extax = read_ext_joint old.extax;
  }

  -- The rob target with every number read from its class
  abbrev pub read_rob_target : RobTarget Num → RobTarget Num
  read_rob_target old = record {
    pos = record {
      x = read (codes "x") old.pos.x;
      y = read (codes "y") old.pos.y;
      z = read (codes "z") old.pos.z;
    };
    orient = record {
      q1 = read (codes "q1") old.orient.q1;
      q2 = read (codes "q2") old.orient.q2;
      q3 = read (codes "q3") old.orient.q3;
      q4 = read (codes "q4") old.orient.q4;
    };
    robconf = record {
      cf1 = read (codes "cf1") old.robconf.cf1;
      cf4 = read (codes "cf4") old.robconf.cf4;
      cf6 = read (codes "cf6") old.robconf.cf6;
      cfx = read (codes "cfx") old.robconf.cfx;
    };
    extax = read_ext_joint old.extax;
  }

  abbrev group_of : Text → Num → List Num → Text → List Text → Group Num
  group_of n o os c cs = record {
    name = n;
    old = o;
    olds = os;
    first = content document c;
    rest = map (content document) cs;
  }

  abbrev HasWordAt : Text → Type 0
  HasWordAt class' = IsWord (content document class')

  abbrev ext_joint_group : ExtJoint Num → Group Num
  ext_joint_group old =
      group_of (codes "extjoint") old.eax_a
        (old.eax_b ∷ old.eax_c ∷ old.eax_d ∷ old.eax_e ∷ old.eax_f ∷ []) (codes "eax_a")
        (codes "eax_b" ∷ codes "eax_c" ∷ codes "eax_d" ∷ codes "eax_e" ∷ codes "eax_f" ∷ [])

  module _ (skips : (t : Text) (old : Num) → fl.read_num (32 ∷ t) old ≡ fl.read_num t old) where
    parse-joint_target_text :
        (old : JointTarget Num)
        → HasWords document (rax_classes ++ eax_classes)
        → parse fl (joint_target_symbol old) (joint_target_text document)
          ≡ returned (joint_target_symbol (read_joint_target old))
    parse-joint_target_text old h =
        let r = old.robax in
        ap (parse fl (joint_target_symbol old)) (joint_target_text_lem document)
        ∙ parse-target_text fl skips (codes "jointtarget")
            (group_of (codes "robjoint") r.rax_1
              (r.rax_2 ∷ r.rax_3 ∷ r.rax_4 ∷ r.rax_5 ∷ r.rax_6 ∷ []) (codes "rax_1")
              (codes "rax_2" ∷ codes "rax_3" ∷ codes "rax_4" ∷ codes "rax_5" ∷ codes "rax_6" ∷ []))
            (ext_joint_group old.extax ∷ []) (refl, All-before HasWordAt rax_classes eax_classes h)
            ((refl, All-after HasWordAt rax_classes eax_classes h), tt)

    parse-rob_target_text :
        (old : RobTarget Num)
        → HasWords document (pos_classes ++ orient_classes ++ conf_classes ++ eax_classes)
        → parse fl (rob_target_symbol old) (rob_target_text document)
          ≡ returned (rob_target_symbol (read_rob_target old))
    parse-rob_target_text old h =
        let p = old.pos in
        let o = old.orient in
        let c = old.robconf in
        let after_pos =
          All-after HasWordAt pos_classes (orient_classes ++ conf_classes ++ eax_classes) h in
        let after_orient =
          All-after HasWordAt orient_classes (conf_classes ++ eax_classes) after_pos in
        ap (parse fl (rob_target_symbol old)) (rob_target_text_lem document)
        ∙ parse-target_text fl skips (codes "robtarget")
            (group_of (codes "pos") p.x (p.y ∷ p.z ∷ []) (codes "x") (codes "y" ∷ codes "z" ∷ []))
            (group_of (codes "orient") o.q1 (o.q2 ∷ o.q3 ∷ o.q4 ∷ []) (codes "q1")
                (codes "q2" ∷ codes "q3" ∷ codes "q4" ∷ [])
              ∷ group_of (codes "confdata") c.cf1 (c.cf4 ∷ c.cf6 ∷ c.cfx ∷ []) (codes "cf1")
                  (codes "cf4" ∷ codes "cf6" ∷ codes "cfx" ∷ [])
              ∷ ext_joint_group old.extax
              ∷ [])
            (
              refl,
              All-before HasWordAt pos_classes (orient_classes ++ conf_classes ++ eax_classes) h,
            )
            (
              (refl, All-before HasWordAt orient_classes (conf_classes ++ eax_classes) after_pos),
              (
                (refl, All-before HasWordAt conf_classes eax_classes after_orient),
                ((refl, All-after HasWordAt conf_classes eax_classes after_orient), tt),
              ),
            )

module _ {Jar Num Dnum : Type 0} (net : Net) (store : CookieStore Jar)
    (parse_xml : Text → Option Node) (fl : Floats Num Dnum)
    (skips : (t : Text) (old : Num) → fl.read_num (32 ∷ t) old ≡ fl.read_num t old) where
  -- If a read of a number skips a blank before it, and the document that a request for the joint target has
  -- given has, for each of the twelve axes, a text that is not empty and has no comma and no bracket, then
  -- getMechanicalUnitJointTarget gives true and leaves in the target the number read from each axis's text.
  pub read_joint_target_lem :
      (mechunit : Text) (old : JointTarget Num) (rws_result : RwsResult) (c d : RwsClient Jar)
      → Requests.get_mechanical_unit_joint_target net store parse_xml mechunit c
        ≡ (done rws_result, d)
      → rws_result.success ≡ true
      → HasWords rws_result.document (rax_classes ++ eax_classes)
      → read_mechanical_unit_joint_target net store parse_xml fl mechunit
          (some (joint_target_symbol old))
          c
        ≡ (
          done (true, some (joint_target_symbol (read_joint_target fl rws_result.document old))),
          d,
        )
  unfolding read_mechanical_unit_joint_target
  read_joint_target_lem mechunit old rws_result c d e s h =
      rw (e, s, parse-joint_target_text fl rws_result.document skips old h) refl

  -- If a read of a number skips a blank before it, and the document that a request for the rob target has
  -- given has, for each of its seventeen numbers, a text that is not empty and has no comma and no bracket, then
  -- getMechanicalUnitRobTarget gives true and leaves in the target the number read from each text.
  pub read_rob_target_lem :
      (mechunit : Text) (old : RobTarget Num) (coordinate : Coordinate) (tool_name wobj_name : Text)
      (rws_result : RwsResult) (c d : RwsClient Jar)
      → Requests.get_mechanical_unit_rob_target net store parse_xml mechunit coordinate tool_name
          wobj_name c
        ≡ (done rws_result, d)
      → rws_result.success ≡ true
      → HasWords rws_result.document (pos_classes ++ orient_classes ++ conf_classes ++ eax_classes)
      → read_mechanical_unit_rob_target net store parse_xml fl mechunit
          (some (rob_target_symbol old))
          coordinate
          tool_name
          wobj_name
          c
        ≡ (done (true, some (rob_target_symbol (read_rob_target fl rws_result.document old))), d)
  unfolding read_mechanical_unit_rob_target
  read_rob_target_lem mechunit old coordinate tool_name wobj_name rws_result c d e s h =
      rw (e, s, parse-rob_target_text fl rws_result.document skips old h) refl
