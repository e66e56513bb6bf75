-- ===== src/Tests.antt =====
-- Runs of the definitions, and the theorems applied at concrete inputs.
mod Fixture
mod Files
mod Mounted
mod Witnesses
mod Mounts
