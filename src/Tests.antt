-- ===== src/Tests.antt =====
-- Concrete inputs: tests of the definitions, and the theorems applied.
mod Fixtures
mod Executor
mod Thread
mod Json
mod Model
mod Block
mod Chain
mod Buffer
mod Pool
mod Scheduler
