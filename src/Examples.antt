-- ===== src/Examples.antt =====
-- Tests of the definitions, and the theorems at concrete inputs.
mod Lines
mod Messages
mod Exchange
mod Literals
mod Executions
mod Windows
mod Selections
mod Sessions
mod Artifacts
mod Keys
mod Frames
mod Identifiers
