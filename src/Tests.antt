-- ===== src/Tests.antt =====
-- Runs on concrete servers, and the theorems at concrete inputs.
mod Scene
mod Wire
mod Chat
mod Cluster
mod Running
mod Programs
mod Starting
mod Lines
mod Loops
mod Mains
mod Crossing
mod Pool
