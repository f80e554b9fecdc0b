-- ===== src/Util.antt =====
-- src/util.c: strings, numbers and request paths. Each family has a module.
pub mod Strings
pub mod Numbers
pub mod Percent
pub mod Path
pub mod Mime
