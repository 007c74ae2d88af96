-- ===== src/Tests.antt =====
-- Concrete inputs, and the theorems applied to them.
mod Samples
mod Tables
mod Buffers
mod Daemons
mod Inserts
mod Olders
mod Rotations
mod Arenas
mod Listings
mod Forgets
mod Threads
