-- ===== src/Jxx.antt =====
-- The jxx.*.h headers: native classes, modules and the runtime, over the wrappers of js.*.h.
pub mod FileSystem
pub mod SearchPath
pub mod ErrorCode
pub mod Evaluate
pub mod Loader
pub mod Toy
pub mod Registry
pub mod Class
pub mod ObjectPtr
pub mod Modules
pub mod Api
pub mod JxxRuntime
pub mod EventLoop
pub mod ExtObject
pub mod Tcp
pub mod Main
pub mod ValueCache
mod Tests
mod RuntimeTests
mod SocketTests
mod RegistryTests
mod CacheTests
mod MainTests
