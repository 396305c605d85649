-- ===== src/Tests.antt =====
-- Runs of the models on concrete inputs, a folder of one module for each part.
mod Samples
mod Rings
mod Queues
mod Calls
mod Inputs
mod Videos
mod Names
mod Surfaces
mod Keymaps
mod Waylands
mod Webs
mod Drivers
