-- ===== src/MemoryWatcher.antt =====
-- The memory watcher of `WaylandDisplay` (src/wayland_display.h, src/wayland_display.cc): it tells
-- the engine of low memory when the usage of the container passes a level. The clock and the
-- results of the kernel's and the engine's calls are arguments.
pub mod Levels
pub mod Warnings
pub mod Range
pub mod Setup
mod Examples
use flutter_embedder_wayland.Base.{
  ℕ, zero, suc, ◌+◌, ◌-◌, ◌*◌, ◌%◌, ◌^◌, Bool, true, false, ◌&&◌, ◌||◌, List, [], ◌∷◌, ◌++◌, map,
  Option, none, some, ltb, leb, ◌==◌, if◌then◌else◌, length, take,
}
use flutter_embedder_wayland.Base.Int.{ℤ, pos, negsuc, neg_of, pos_part, ltb_ℤ}
use flutter_embedder_wayland.Base.Syscall.{Errno, eintr}
use flutter_embedder_wayland.Base.Text.{Bytes}
use flutter_embedder_wayland.Base.Atol.{atol}

-- The members of `memory_watcher_`; a descriptor of -1 is `none`.
pub record Watcher : Type 0 where
  pub levels : List ℤ
  pub current_level : ℕ
  pub memory_file_fd : Option ℕ
  pub last_warning_sent_ns : ℕ  -- uint64_t
  pub event_fd : Option ℕ

unfoldable pub new : Watcher
new = record {
  levels = [];
  current_level = 0;
  memory_file_fd = none;
  last_warning_sent_ns = 0;
  event_fd = none;
}

-- A result of `read`: bytes, of which the kernel stores no more than were asked for, or an error.
pub data Read : Type 0 where
  chunk : Bytes → Read
  error : Errno → Read

-- `readsz`: the size of the buffer, with its final NUL.
abbrev pub readsz : ℕ
readsz = 32

-- The loop that reads the usage: the text in the buffer, or `failed`. `none` means that the kernel
-- never came to an end.
pub data Loaded : Type 0 where
  text : Bytes → Loaded
  failed : Loaded

unfoldable pub read_usage : Bytes → List Read → Option Loaded
read_usage memstr [] = none
read_usage memstr (error eintr ∷ rs) = read_usage memstr rs
read_usage memstr (error e ∷ rs) = some failed
read_usage memstr (chunk bytes ∷ rs) =
    let more = read_usage (memstr ++ take (readsz - 1 - length memstr) bytes) rs in
    elim (take (readsz - 1 - length memstr) bytes) [ [] ↦ some (text memstr) | c ∷ cs ↦ more ]

-- The loop over the levels: how many there are before the first one above `mem`.
unfoldable pub level_of : ℤ → List ℤ → ℕ
level_of mem [] = 0
level_of mem (l ∷ ls) = if ltb_ℤ mem l then 0 else suc (level_of mem ls)

-- 20 s, `min_time_between_warnings_ns_`.
abbrev pub cooldown : ℕ
cooldown = 20_000_000_000

-- What the watcher did: nothing, a call of `FlutterEngineNotifyLowMemoryWarning`, and its success.
pub data Outcome : Type 0 where
  silent refused warned : Outcome

-- The part of `HandleMemoryWatcherEvent` behind the read; `accepts` is the result of the call.
unfoldable pub compare_usage : Bool → ℕ → ℤ → Watcher → Outcome × Watcher
compare_usage accepts now_ns mem w =
    let level = level_of mem w.levels in
    if ltb_ℤ (pos 0) mem
    then (if ltb w.current_level level
        then (if accepts
            then (warned, record w { last_warning_sent_ns = now_ns; current_level = level })
            else (refused, w))
        else (silent, record w { current_level = level }))
    else (silent, w)

after_read : Bool → ℕ → Loaded → Watcher → Outcome × Watcher
after_read accepts now_ns (text memstr) w = compare_usage accepts now_ns (atol memstr) w
after_read accepts now_ns failed w = (silent, w)

-- `HandleMemoryWatcherEvent`.
unfoldable pub handle_event : Bool → ℕ → List Read → Watcher → Option (Outcome × Watcher)
unfolding after_read
handle_event accepts now_ns reads w =
    if ltb now_ns ((w.last_warning_sent_ns + cooldown) % 2 ^ 64)
    then some (silent, w)
    else elim (read_usage [] reads) [
      | none ↦ none
      | some loaded ↦ some (after_read accepts now_ns loaded w)
    ]
