-- ===== src/Process.antt =====
-- src/process: helpers on the running process that need no game knowledge.
pub mod Scanner
pub mod Pattern
pub mod CpuSets
pub mod Undname
mod Tests
