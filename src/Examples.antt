-- ===== src/Examples.antt =====
-- The theorems at concrete inputs, and runs of the definitions.
mod Coding
mod Transfer
mod Progress
mod Programs
mod Sessions
mod Storage
mod Upload
mod Control
mod Download
mod Choice
