-- ===== src/Tests.antt =====
-- Runs of the definitions on samples, and the theorems at concrete inputs.
mod Source
mod Samples
mod Windows
mod RuleSets
mod Files
mod Previews
mod Cycles
mod Logins
mod Versions
mod Counters
mod Blocklists
mod Tables
mod Openings
