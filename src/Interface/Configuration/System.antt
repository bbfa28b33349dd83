-- ===== src/Interface/Configuration/System.antt =====
-- The types of the controller domain in include/abb_librws/rws_cfg.h, and the methods of src/rws_interface.cpp
-- that read their instances.
use abb_librws.Base.{Text, codes, List, [], ◌∷◌, ◌++◌, Option}
use abb_librws.Xml.{Node}
use abb_librws.Poco.Work.{Net, CookieStore}
use abb_librws.Client.Types.{R}
use abb_librws.Interface.Configuration.{Branch, required, allowed, read_instance, get_instances}

-- MechanicalUnitGroup
pub record MechanicalUnitGroup : Type 0 where
  pub name : Text
  pub robot : Text
  pub mechanical_units : List Text

-- PresentOption
pub record PresentOption : Type 0 where
  pub name : Text
  pub description : Text

unfoldable pub mechanical_unit_group_branches : List (Branch MechanicalUnitGroup)
mechanical_unit_group_branches =
    let unit = allowed λ t (group : MechanicalUnitGroup). record group {
      mechanical_units = group.mechanical_units ++ t ∷ [];
    } in
    (codes "Name", required λ t group. record group { name = t })
    ∷ (codes "Robot", allowed λ t group. record group { robot = t })
    ∷ (codes "MechanicalUnit_1", unit)
    ∷ (codes "MechanicalUnit_2", unit)
    ∷ (codes "MechanicalUnit_3", unit)
    ∷ (codes "MechanicalUnit_4", unit)
    ∷ (codes "MechanicalUnit_5", unit)
    ∷ (codes "MechanicalUnit_6", unit)
    ∷ []

abbrev pub new_mechanical_unit_group : MechanicalUnitGroup
new_mechanical_unit_group = record { name = []; robot = []; mechanical_units = [] }

unfoldable pub present_option_branches : List (Branch PresentOption)
present_option_branches =
    (codes "name", required λ t present_option. record present_option { name = t })
    ∷ (codes "desc", required λ t present_option. record present_option { description = t })
    ∷ []

abbrev pub new_present_option : PresentOption
new_present_option = record { name = []; description = [] }

module _ {Jar : Type 0} (net : Net) (store : CookieStore Jar) (parse_xml : Text → Option Node) where
  -- getCFGMechanicalUnitGroups
  unfoldable pub get_cfg_mechanical_unit_groups : R Jar (List MechanicalUnitGroup)
  get_cfg_mechanical_unit_groups =
      get_instances net store parse_xml (codes "sys") (codes "mechanical_unit_group")
        (read_instance mechanical_unit_group_branches new_mechanical_unit_group)

  -- getCFGPresentOptions
  unfoldable pub get_cfg_present_options : R Jar (List PresentOption)
  get_cfg_present_options =
      get_instances net store parse_xml (codes "sys") (codes "present_options")
        (read_instance present_option_branches new_present_option)
