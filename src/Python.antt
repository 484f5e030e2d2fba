-- ===== src/Python.antt =====
-- What the code uses of Python itself: exceptions as values, aware and naive `datetime`s, `None`,
-- truth values, and flat JSON objects. Nothing here models a file of the repository.
pub mod Result
pub mod DateTime
pub mod Obj
pub mod Codec
pub mod Text
pub mod Action
