-- ===== src/Storages/Tests.antt =====
-- The tests of pkg/storages: a server and a format of nodes, runs, and theorems at concrete inputs.
mod Codes
mod Data
mod Redis
mod Sql
mod Refine
mod Ingested
