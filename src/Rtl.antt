-- ===== src/Rtl.antt =====
-- boron/source/rtl: the run-time library.
pub mod Str
pub mod CommandLine
