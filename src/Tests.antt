-- ===== src/Tests.antt =====
-- Runs of the models, and the theorems at concrete inputs.
mod Manager
mod Dataplane
mod Pools
mod Headers
mod Classifier
mod Fragments
mod Transport
mod Loading
mod Layers
mod FragTable
mod Moves
mod Ring
