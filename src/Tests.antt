-- ===== src/Tests.antt =====
-- Runs of the definitions, and the theorems at concrete data.
mod Codec
mod Queries
mod Stores
mod Repositories
mod Requests
mod Entries
mod Ordered
mod Branches
mod Uploads
mod Served
mod Starting
mod Turns
mod Climbing
mod Parser
mod Printed
