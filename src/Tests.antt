-- ===== src/Tests.antt =====
-- Runs of the models, and each theorem at a concrete input.
mod Data
mod Containers
mod Arrays
mod Keys
mod Values
mod Clock
mod Calls
mod Nodes
mod Heaps
mod Trees
mod Sax
mod Contracts
