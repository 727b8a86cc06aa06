-- ===== src/Examples.antt =====
-- Runs on small inputs, and each theorem at an input that meets its conditions.
mod Samples
mod Passes
mod Sorting
mod Pruning
mod Containers
mod Elements
mod Iteration
mod Choices
mod Removal
mod Managed
mod Naming
mod Keys
mod Objects
mod Pointers
mod Nodes
mod Segments
