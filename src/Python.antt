-- ===== src/Python.antt =====
-- What the program takes from Python itself: exceptions and state, text of integers, dictionaries,
-- and the dynamic values that the cache and the JSON columns hold.
pub mod Exec
pub mod Preserves
pub mod Int
pub mod Text
pub mod Substring
pub mod Dict
pub mod Value
pub mod Fields
pub mod Equality
pub mod Uuid
