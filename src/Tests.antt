-- ===== src/Tests.antt =====
-- Runs of the definitions, and the theorems at concrete inputs.
mod Arithmetic
mod Rewriting
mod Texts
mod Keys
mod Loading
mod Coding
mod Checking
mod Profiling
mod Reading
mod Converting
mod Guarding
mod Opening
mod Relocating
