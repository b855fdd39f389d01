-- ===== src/Examples.antt =====
-- The theorems at concrete inputs.
mod Names
mod Elements
mod Scheduler
mod Services
mod Notices
mod Escapes
mod Expressions
mod Resolving
mod Configuring
mod Graphing
mod Packets
mod Distribution
