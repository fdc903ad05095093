-- ===== src/Python.antt =====
-- The parts of the Python language and standard library that the program computes with.
pub mod Float
pub mod Text
pub mod Json
pub mod Dict
