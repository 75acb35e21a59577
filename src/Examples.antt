-- ===== src/Examples.antt =====
-- Concrete inputs and what the modelled code does with them.
mod Data
mod Rights
mod Delivery
mod Operations
mod Others
mod Router
mod Shells
mod Watches
mod Queue
mod Profiles
