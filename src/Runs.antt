-- ===== src/Runs.antt =====
-- Concrete runs of the definitions, and the theorems at concrete inputs.
pub mod Samples
mod Store
mod Values
mod Messages
mod Timers
mod Streams
mod Arguments
mod Transfers
mod Addresses
mod Scheduling
mod Frames
mod Patterns
mod Descriptors
mod Contexts
