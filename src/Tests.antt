-- ===== src/Tests.antt =====
-- Runs at concrete inputs: the theorems applied, and tests of the definitions.
mod Lab
mod RotateRuns
mod AlarmRuns
mod StatusRows
mod ServerRuns
mod VsdRuns
mod PlateRuns
mod PlateParses
mod PoolRuns
mod ProtocolRuns
mod RuntimeRuns
mod DiffRuns
mod SubnetRuns
mod ValidateRuns
