-- ===== src/Tests.antt =====
-- The definitions run on concrete inputs, and the theorems are applied there.
mod Addresses
mod Guard
mod Files
mod Choices
mod Repositories
mod Clones
mod Accounts
mod Local
mod Remote
mod Transports
mod Pins
