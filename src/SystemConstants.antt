-- ===== src/SystemConstants.antt =====
-- The constants of include/abb_librws/rws_common.h, with a record for each of its structures.
pub mod ContollerStates
pub mod General
pub mod IoSignals
pub mod Rapid
pub mod Identifiers
pub mod Queries
pub mod Services
pub mod Resources
pub mod XmlAttributes
