-- ===== src/Rapid.antt =====
-- include/abb_librws/rws_rapid.h and src/rws_rapid.cpp: RAPID data and its text form.
pub mod Atoms
pub mod Delimited
pub mod Symbols
pub mod Records
pub mod Numbers
pub mod Objects
