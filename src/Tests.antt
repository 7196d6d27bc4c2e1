-- ===== src/Tests.antt =====
-- Concrete servers, configurations and answers, and the theorems at them.
mod Samples
mod Catalogs
mod Measures
mod Switches
mod Records
mod Files
mod Explanations
mod Rounds
