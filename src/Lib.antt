-- ===== src/Lib.antt =====
-- chakra-jxx: a header-only C++ binding of the JavaScript engine ChakraCore, and the runtime `Jxx`
-- that loads modules on it.
--
-- The parts, from the bottom up. js.value.h and js.base.h wrap an engine reference (`value_ref_t`),
-- with the type masks that say which values a wrapper accepts (`_as_the<>`, `base_value_<>`), the
-- parameters of native calls (`param_t`) and the handle that keeps a value alive (`Durable`).
-- js.function.h turns a C++ function into one that the engine calls. js.primitive.h, js.object.h,
-- js.array.h, js.typedarray.h, js.arraybuffer.h and js.context.h convert and access values of one
-- type. jxx.api.h, jxx.class.h and jxx.object.h give C++ objects to scripts. jxx.module.h has the
-- search path and the registration of modules, jxx.runtime.h the runtime, and jxx.asio.tcp.h sockets
-- and the Windows registry.
--
-- The files:
--   Base          the shared helpers: numbers and their bits, lists, dictionaries (`std::map`), and a
--                 monad for code that throws (`exception_t`, `CXX_EXCEPTION_IF`)
--   Js/Jsrt       the engine's functions (`Js...` of ChakraCore.h), as a record of operations on a
--                 state `E`; each answers with its error code, its outputs and the new state
--   Js/Mask, Js/Value, Js/Param     js.value.h and js.base.h: the masks, `value_ref_t`, `_as_the`,
--                 `base_value_`, `param_t`
--   Js/Durable    js.base.h: `Durable`, over numbered handles
--   Js/Function   js.function.h: `_STUB_OF_MAGIC_FUNC_OF_`
--   Js/Primitive, Js/Object, Js/Array, Js/TypedArray, Js/ArrayBuffer, Js/Context
--                 the header of the same name
--   Jxx/ErrorCode                   jxx.api.h: the error codes
--   Jxx/Class                       jxx.api.h, jxx.class.h: `QueryClass`, `JxxMixinObject`
--   Jxx/ExtObject                   jxx.object.h: `ExtObject`; jxx.class.h: the stub of methods
--   Jxx/ObjectPtr                   jxx.api.h: `JxxObjectPtr`; jxx.class.h: `AddRef`, `Release`
--   Jxx/FileSystem                  the functions of `std::filesystem` that are used
--   Jxx/SearchPath                  jxx.module.h: `ModuleDirectory`, `PathResolver`
--   Jxx/Evaluate, Jxx/Loader        jxx.runtime.h: `JxxRuntime`
--   Jxx/Modules                     jxx.module.h: `ModuleRegistry`, `JxxRuntimeModuleMgmt`
--   Jxx/Api                         jxx.runtime.h: the functions on the runtime of a context
--   Jxx/JxxRuntime                  jxx.runtime.h: the creation and the end of a runtime, its JSON tools
--   Jxx/EventLoop                   jxx.runtime.h: the promise continuations
--   Jxx/ValueCache                  jxx.cc.h: `ValueCache`
--   Jxx/Registry                    jxx.asio.tcp.h: the functions `_Reg...`
--   Jxx/Tcp                         jxx.asio.tcp.h: the sockets and acceptors
--   Jxx/Main                        jsrt-jxx.cpp: `resolve`, `main`, `on_client`, `on_data`
--   Mode/Runtime                    mode.runtime.h: the older `Runtime`, `InitMyRuntime`
--   Js/Toy, Js/Tests, Jxx/Toy, Jxx/Tests, Jxx/RuntimeTests, Jxx/SocketTests,
--   Jxx/RegistryTests, Jxx/CacheTests, Jxx/MainTests, Js/MemoryTests, Mode/Tests
--                 a small engine and disk, and what runs on them
-- Jxx/Tcp/Sockets, Jxx/Tcp/Acceptors, Jxx/Registry/Keys, Jxx/Registry/Query,
-- Jxx/Registry/Enumerate, Jxx/Class/Exports, Jxx/Main/Client, Jxx/Main/Start, Jxx/Main/Listening,
-- Jxx/Modules/Templates, Js/ArrayBuffer/Heap and Mode/Runtime/Init have more of the code of their
-- module, Js/Guarded has `IF_EXCEPTION_RETURN` of js.base.h, and the other files below a module prove
-- what their names say of it.
--
-- The engine and the file system are not part of the repository. The engine is any `Jsrt E`; what a
-- theorem relies on of it is a hypothesis: type numbers are small, a count changes by one at
-- `JsAddRef` and `JsRelease`, a context that was set is current. The toy engine satisfies them. A
-- value reference is a number, 0 for a null pointer. The state is passed from step to step; a throw
-- keeps the state that it left behind, as in the source, and closes the scopes on its way.
--
-- Machine integers: masks and conversions to `int` and `uint32_t` are written out modulo 2 ^ 32,
-- and the offsets of a `MemoryView` modulo 2 ^ 64. The one loop on fuel is that over the lines of a
-- REG_MULTI_SZ; its fuel is the size of the buffer, since each round passes at least a terminator
-- and the loop stops at the end of the buffer.
--
-- Readings. Some lines name what nothing declares: `json`, `ptr` and `len` in `JsonParse`,
-- `runtime` in `CreateContext` and `url` in `JxxRunScript` are read as the parameters or members that
-- the line can only mean. Where `main` of a package is no string, `GetAs<String>` throws inside a
-- condition that answers with the code of an unmatched type, as the code after it does.
--
-- `QueryModule` reads the specialer of a `detail` that it does not declare, which stands here for the
-- specialer that it is given, and `LoadModule` of jxx.module.h looks for `resolved` before it declares
-- it, read as the specialer. That class uses members that only `JxxRuntime` has, so its four loaders
-- have the statements of those of `JxxRuntime`. `CreateFrom(String)` declares its copy as a text and uses
-- it as a pointer to one, which is what it can only mean; `on_data` is read with this overload. A pointer
-- with a length stands as the text, or as the bytes, that it points at.
--
-- A runtime is its address, and each has its members. The event loop is a queue, since `loop_` is made
-- for one thread; the continuations that the engine hands over while a task runs are any function of
-- the engine's state.
--
-- asio is a parameter: its calls that answer at once, and which operation ends next, with which error.
-- A script that a callback runs may do anything to the sockets, within what a theorem says of it.
-- Windows is a parameter as well: each of its calls answers with an error code. Where C++ leaves the
-- order of arguments open, the first comes first. `query_cast` stands without its template argument in
-- jxx.api.h, and is read with the class of the pointer.
--
-- `CreateContextFor` reads a `global_proto` that it does not declare, a parameter here. mode.runtime.h
-- includes headers that are missing: their contexts, objects and classes are parameters, and so is
-- `concat` of a path. `RegisterModule` there takes a description and uses it as a pointer to one, not
-- null; `InitMyRuntime` makes its runtime without the arguments that the constructor wants, and is read
-- with a runtime that is constructed.
--
-- The memory of array buffers is the lists of the blocks that are allocated, by what has allocated
-- them; `new` answers with any address where none is. The engine keeps a finalizer for each external buffer that it has made, and
-- calls it once, when the buffer is collected or the engine disposed of.
--
-- The tasks of an event loop wait in the order in which they were posted, as asio documents for a
-- context that one thread runs. A script that a module evaluates changes the engine only, and loads
-- no module itself.
--
-- Not modelled: the making of an instance of a built-in module and the files of native modules (their
-- functions use undeclared names), `JxxLoadModule` of jsrt-jxx.cpp and `LoadModule` of mode.runtime.h,
-- which end without a return, and the functions of jsrt-jxx.cpp that only answer with null. The folder
-- llhttp is a copy of another project's parser.
pub mod Base
pub mod Js
pub mod Jxx
pub mod Mode
