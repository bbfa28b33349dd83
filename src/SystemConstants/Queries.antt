-- ===== src/SystemConstants/Queries.antt =====
-- SystemConstants::RWS::Queries of src/rws_common.cpp: queries.
use abb_librws.Base.{Text, codes}

pub record Queries : Type 0 where
  pub action_release : Text
  pub action_request : Text
  pub action_resetpp : Text
  pub action_set : Text
  pub action_setctrlstate : Text
  pub action_set_locale : Text
  pub action_start : Text
  pub action_stop : Text
  pub task : Text

abbrev pub queries : Queries
queries = record {
  action_release = codes "action=release";
  action_request = codes "action=request";
  action_resetpp = codes "action=resetpp";
  action_set = codes "action=set";
  action_setctrlstate = codes "action=setctrlstate";
  action_set_locale = codes "action=set-locale";
  action_start = codes "action=start";
  action_stop = codes "action=stop";
  task = codes "task=";
}
