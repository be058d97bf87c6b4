-- ===== src/Witnesses.antt =====
-- Tests by evaluation, and each theorem at a concrete input, by component.
mod Timers
mod Downloads
mod Wrappers
mod Messages
mod Processes
mod Connections
mod Values
mod Commands
mod Times
mod Updates
