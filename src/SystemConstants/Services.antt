-- ===== src/SystemConstants/Services.antt =====
-- SystemConstants::RWS::Services of src/rws_common.cpp: services.
use abb_librws.Base.{Text, codes}

pub record Services : Type 0 where
  pub ctrl : Text
  pub fileservice : Text
  pub rw : Text
  pub subscription : Text
  pub users : Text

abbrev pub services : Services
services = record {
  ctrl = codes "/ctrl";
  fileservice = codes "/fileservice";
  rw = codes "/rw";
  subscription = codes "/subscription";
  users = codes "/users";
}
