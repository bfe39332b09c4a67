-- ===== src/Examples.antt =====
-- Tests of the model on concrete data, and the theorems at concrete inputs.
mod Data
mod Codec
mod Files
mod Fibers
mod Stores
mod Disks
mod Logs
mod Engines
mod Readers
