-- ===== src/Tests.antt =====
-- Runs of the theorems at concrete inputs.
mod Linking
mod Executing
mod Selecting
mod Assembling
mod Interpreting
