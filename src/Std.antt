-- ===== src/Std.antt =====
-- The containers of the C++ library that the program uses with a key's order.
pub mod Order
pub mod Map
pub mod Set
pub mod Text
pub mod Assoc
