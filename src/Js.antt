-- ===== src/Js.antt =====
-- The js.*.h headers: wrappers of ChakraCore's C API.
pub mod Jsrt
pub mod Mask
pub mod Value
pub mod Param
pub mod Function
pub mod Durable
pub mod Primitive
pub mod Object
pub mod Array
pub mod TypedArray
pub mod ArrayBuffer
pub mod Context
pub mod Guarded
pub mod Toy
mod Tests
mod MemoryTests
