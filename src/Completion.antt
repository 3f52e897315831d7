-- ===== src/Completion.antt =====
-- Which steps of the processor always come to an end: the rules of the logic, the shapes of the
-- bodies, and the steps that run them.
pub mod Logic
pub mod Shapes
pub mod Entries
pub mod Steps
