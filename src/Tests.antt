-- ===== src/Tests.antt =====
-- Runs of the definitions at concrete inputs, and instances of the theorems.
mod Setup
mod Decisions
mod Announcements
mod Sessions
mod Files
mod Programs
mod Connecting
