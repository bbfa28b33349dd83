-- ===== src/SystemConstants/XmlAttributes.antt =====
-- SystemConstants::RWS::XMLAttributes of src/rws_common.cpp: XML attributes that are searched for.
use abb_librws.Xml.{XmlAttribute}
use abb_librws.SystemConstants.Identifiers.{identifiers}

pub record XmlAttributes : Type 0 where
  pub class_active : XmlAttribute
  pub class_cfg_dt_instance_li : XmlAttribute
  pub class_cfg_ia_t_li : XmlAttribute
  pub class_ctrl_type : XmlAttribute
  pub class_ctrlexecstate : XmlAttribute
  pub class_ctrlstate : XmlAttribute
  pub class_dattyp : XmlAttribute
  pub class_excstate : XmlAttribute
  pub class_ios_signal : XmlAttribute
  pub class_lvalue : XmlAttribute
  pub class_motiontask : XmlAttribute
  pub class_name : XmlAttribute
  pub class_opmode : XmlAttribute
  pub class_rap_module_info_li : XmlAttribute
  pub class_rap_task_li : XmlAttribute
  pub class_rw_version_name : XmlAttribute
  pub class_state : XmlAttribute
  pub class_sys_option_li : XmlAttribute
  pub class_sys_system_li : XmlAttribute
  pub class_type : XmlAttribute
  pub class_value : XmlAttribute
  pub class_option : XmlAttribute

abbrev pub xml_attributes : XmlAttributes
xml_attributes = record {
  class_active = record { name = identifiers.class; value = identifiers.active };
  class_cfg_dt_instance_li = record {
    name = identifiers.class;
    value = identifiers.cfg_dt_instance_li;
  };
  class_cfg_ia_t_li = record { name = identifiers.class; value = identifiers.cfg_ia_t_li };
  class_ctrl_type = record { name = identifiers.class; value = identifiers.ctrl_type };
  class_ctrlexecstate = record { name = identifiers.class; value = identifiers.ctrlexecstate };
  class_ctrlstate = record { name = identifiers.class; value = identifiers.ctrlstate };
  class_dattyp = record { name = identifiers.class; value = identifiers.dattyp };
  class_excstate = record { name = identifiers.class; value = identifiers.excstate };
  class_ios_signal = record { name = identifiers.class; value = identifiers.ios_signal };
  class_lvalue = record { name = identifiers.class; value = identifiers.lvalue };
  class_motiontask = record { name = identifiers.class; value = identifiers.motiontask };
  class_name = record { name = identifiers.class; value = identifiers.name };
  class_opmode = record { name = identifiers.class; value = identifiers.opmode };
  class_rap_module_info_li = record {
    name = identifiers.class;
    value = identifiers.rap_module_info_li;
  };
  class_rap_task_li = record { name = identifiers.class; value = identifiers.rap_task_li };
  class_rw_version_name = record { name = identifiers.class; value = identifiers.rw_version_name };
  class_state = record { name = identifiers.class; value = identifiers.state };
  class_sys_option_li = record { name = identifiers.class; value = identifiers.sys_option_li };
  class_sys_system_li = record { name = identifiers.class; value = identifiers.sys_system_li };
  class_type = record { name = identifiers.class; value = identifiers.type };
  class_value = record { name = identifiers.class; value = identifiers.value };
  class_option = record { name = identifiers.class; value = identifiers.option };
}
