-- ===== src/Daq.antt =====
-- The dynamic DAQ lists: src/xcplite.c from `XcpClearDaq` to `XcpStopSelectedDaqLists`.
pub mod Tables
pub mod Alloc
pub mod Layout
pub mod Address
pub mod Entry
pub mod Mode
pub mod Run
pub mod Check
pub mod Trigger
pub mod Reach
