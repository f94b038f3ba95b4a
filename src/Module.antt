-- ===== src/Module.antt =====
-- module/base: the modules of a process.
pub mod Manager
