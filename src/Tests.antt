-- ===== src/Tests.antt =====
-- Runs of the theorems on concrete data, by the part that they are about.
mod Samples
mod Slots
mod Moves
mod Masters
mod Repairs
mod Syncs
mod Conns
mod Stores
