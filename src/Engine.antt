-- ===== src/Engine.antt =====
-- internal/engine: the parts of the run loop's state and its operations.
pub mod State
pub mod Core
pub mod Transfer
pub mod Decide
pub mod Current
pub mod History
pub mod Remote
pub mod Switch
pub mod Attempt
pub mod Sets
pub mod Manual
pub mod Program
pub mod Tasks
pub mod Health
pub mod Loop
