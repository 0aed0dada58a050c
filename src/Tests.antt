-- ===== src/Tests.antt =====
-- The theorems at concrete inputs.
mod Boots
mod Guards
mod Threads
mod Starts
mod Sandboxes
mod Sessions
mod Modes
mod Budgets
mod Memory
mod Worlds
