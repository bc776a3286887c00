-- ===== src/Tests.antt =====
-- The theorems at concrete inputs: those on pure code in `Pure`, those on stateful code in `Stateful`
-- and `Api`, over the world of `Memory`, those on the table of states and the API in `Fleet`,
-- over the world of `Board`, those on the start of the programs in `Startup`, and those on whole runs
-- in `Seen`.
mod Memory
mod Api
mod Board
mod Journey
mod Sorting
mod Doors
mod Fleet
mod Seen
mod Startup
mod Pure
mod Stateful
