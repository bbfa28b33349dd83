-- ===== src/Client/Constants.antt =====
-- The constants that the client uses: services, resources, queries and classes.
use abb_librws.Base.{Text}
use abb_librws.Xml.{XmlAttribute}
use abb_librws.SystemConstants.General.{general}
use abb_librws.SystemConstants.Services.{services}
use abb_librws.SystemConstants.Resources.{resources}
use abb_librws.SystemConstants.Queries.{queries}
use abb_librws.SystemConstants.Identifiers.{identifiers}
use abb_librws.SystemConstants.XmlAttributes.{xml_attributes}

abbrev pub services_ctrl : Text
services_ctrl = services.ctrl

abbrev pub services_fileservice : Text
services_fileservice = services.fileservice

abbrev pub services_subscription : Text
services_subscription = services.subscription

abbrev pub services_users : Text
services_users = services.users

abbrev pub instances : Text
instances = resources.instances

abbrev pub jointtarget : Text
jointtarget = resources.jointtarget

abbrev pub logout_resource : Text
logout_resource = resources.logout

abbrev pub robtarget : Text
robtarget = resources.robtarget

abbrev pub rw_cfg : Text
rw_cfg = resources.rw_cfg

abbrev pub rw_iosystem_signals : Text
rw_iosystem_signals = resources.rw_iosystem_signals

abbrev pub rw_motionsystem_mechunits : Text
rw_motionsystem_mechunits = resources.rw_motionsystem_mechunits

abbrev pub rw_panel_ctrlstate : Text
rw_panel_ctrlstate = resources.rw_panel_ctrlstate

abbrev pub rw_panel_opmode : Text
rw_panel_opmode = resources.rw_panel_opmode

abbrev pub rw_rapid_execution : Text
rw_rapid_execution = resources.rw_rapid_execution

abbrev pub rw_rapid_modules : Text
rw_rapid_modules = resources.rw_rapid_modules

abbrev pub rw_rapid_symbol_data_rapid : Text
rw_rapid_symbol_data_rapid = resources.rw_rapid_symbol_data_rapid

abbrev pub rw_rapid_symbol_properties_rapid : Text
rw_rapid_symbol_properties_rapid = resources.rw_rapid_symbol_properties_rapid

abbrev pub rw_rapid_tasks : Text
rw_rapid_tasks = resources.rw_rapid_tasks

abbrev pub rw_system : Text
rw_system = resources.rw_system

-- XMLAttributes: every one is a value of the attribute `class`.
abbrev pub class_attribute : Text → XmlAttribute
class_attribute value = record { name = identifiers.class; value = value }

abbrev pub class_dattyp : XmlAttribute
class_dattyp = xml_attributes.class_dattyp

abbrev pub class_value : XmlAttribute
class_value = xml_attributes.class_value

abbrev pub class_lvalue : XmlAttribute
class_lvalue = xml_attributes.class_lvalue

abbrev pub class_opmode : XmlAttribute
class_opmode = xml_attributes.class_opmode

abbrev pub class_ctrlstate : XmlAttribute
class_ctrlstate = xml_attributes.class_ctrlstate

abbrev pub class_ctrlexecstate : XmlAttribute
class_ctrlexecstate = xml_attributes.class_ctrlexecstate

-- The names of the coordinate systems, as the constants spell them.
abbrev pub coordinate_base : Text
coordinate_base = general.coordinate_base

abbrev pub coordinate_world : Text
coordinate_world = general.coordinate_world

abbrev pub coordinate_tool : Text
coordinate_tool = general.coordinate_tool

abbrev pub coordinate_wobj : Text
coordinate_wobj = general.coordinate_wobj

abbrev pub local : Text
local = general.local

abbrev pub remote : Text
remote = general.remote

-- Queries
abbrev pub action_resetpp : Text
action_resetpp = queries.action_resetpp

abbrev pub action_set : Text
action_set = queries.action_set

abbrev pub action_setctrlstate : Text
action_setctrlstate = queries.action_setctrlstate

abbrev pub action_start : Text
action_start = queries.action_start

abbrev pub action_stop : Text
action_stop = queries.action_stop

abbrev pub task_query : Text
task_query = queries.task
