-- ===== src/Jxx/Main.antt =====
-- jsrt-jxx.cpp: how the program looks a module up.
pub mod Accepts
pub mod Client
pub mod Listening
pub mod Lookup
pub mod Opening
pub mod Serving
pub mod Start
pub mod Started
pub mod Waiting
use chakra_jxx.Base.{String, Bool, true, false, not, ◌||◌, ◌&&◌, if◌then◌else◌, ◌≡◌, ◌≢◌, arith}
use chakra_jxx.Jxx.FileSystem.{FileSystem}

module _ {P : Type 0} (fs : FileSystem P) where
  -- `(dir / target).lexically_normal()`.
  abbrev at : P → P → P
  at dir target = fs.lexically_normal (fs.join dir target)

  -- `resolve`, and what it leaves in `out`. A path is absolute if it is not relative.
  unfoldable pub resolve : String → P → Bool × P
  resolve specialer out =
      let current = fs.current_path in
      let target = fs.path specialer in
      if not (fs.is_relative target)
      then (false, out)
      else if fs.exists (at current target)
      then (true, at current target)
      else (
        fs.exists (at (fs.join current (fs.path "node_modules")) target),
        at (fs.join current (fs.path "node_modules")) target,
      )
