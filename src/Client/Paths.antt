-- ===== src/Client/Paths.antt =====
-- The paths that src/rws_client.cpp makes of its arguments.
use abb_librws.Base.{Text, codes, is_empty, if◌then◌else◌, [], ◌++◌}
use abb_librws.Client.Types.{
  RapidResource, FileResource, Coordinate, base, world, tool, wobj, active,
}
use abb_librws.Client.Constants.{
  rw_cfg, rw_iosystem_signals, rw_motionsystem_mechunits, rw_rapid_symbol_data_rapid,
  rw_rapid_symbol_properties_rapid, services_fileservice, robtarget, coordinate_base,
  coordinate_world, coordinate_tool, coordinate_wobj,
}

abbrev pub slash : Text
slash = codes "/"

-- generateConfigurationPath
unfoldable pub configuration_path : Text → Text → Text
configuration_path topic type = rw_cfg ++ slash ++ topic ++ slash ++ type

-- generateIOSignalPath
unfoldable pub io_signal_path : Text → Text
io_signal_path iosignal = rw_iosystem_signals ++ slash ++ iosignal

-- generateMechanicalUnitPath
unfoldable pub mechanical_unit_path : Text → Text
mechanical_unit_path mechunit = rw_motionsystem_mechunits ++ slash ++ mechunit

-- generateRAPIDDataPath
unfoldable pub rapid_data_path : RapidResource → Text
rapid_data_path resource =
    rw_rapid_symbol_data_rapid ++ slash ++ resource.task ++ slash ++ resource.module_name ++ slash
    ++ resource.name

-- generateRAPIDPropertiesPath
unfoldable pub rapid_properties_path : RapidResource → Text
rapid_properties_path resource =
    rw_rapid_symbol_properties_rapid ++ slash ++ resource.task ++ slash ++ resource.module_name
    ++ slash ++ resource.name

-- generateFilePath
unfoldable pub file_path : FileResource → Text
file_path resource =
    services_fileservice ++ slash ++ resource.directory ++ slash ++ resource.filename

-- `if (!value.empty()) args += name + value`
abbrev pub optional_arg : Text → Text → Text
optional_arg name value = if is_empty value then [] else name ++ value

-- The arguments of a rob target's query: none for the active coordinate system.
unfoldable pub rob_target_args : Coordinate → Text → Text → Text
rob_target_args coordinate tool_name wobj_name =
    let args = optional_arg (codes "&tool=") tool_name ++ optional_arg (codes "&wobj=") wobj_name in
    elim coordinate [
      | base ↦ codes "?coordinate=" ++ coordinate_base ++ args
      | world ↦ codes "?coordinate=" ++ coordinate_world ++ args
      | tool ↦ codes "?coordinate=" ++ coordinate_tool ++ args
      | wobj ↦ codes "?coordinate=" ++ coordinate_wobj ++ args
      | active ↦ []
    ]

-- The path that getMechanicalUnitRobTarget makes
unfoldable pub rob_target_path : Text → Coordinate → Text → Text → Text
rob_target_path mechunit coordinate tool_name wobj_name =
    mechanical_unit_path mechunit ++ robtarget ++ rob_target_args coordinate tool_name wobj_name
