-- ===== src/Utils.antt =====
-- src/utils.c and `realpath_n` of src/bialet.c.
pub mod Path
pub mod Trim
pub mod Strtol
