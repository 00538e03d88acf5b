-- ===== src/Lib.antt =====
-- Verification library of flutter-launcher-wayland, an embedder of the Flutter engine for Wayland.
--
-- The program opens a Wayland display (`WaylandDisplay` of src/wayland_display.h and
-- src/wayland_display.cc), starts the engine in it, and then runs one loop in its main thread. Five
-- things wake the loop: batons of the engine's vsync, events of the compositor, the timer of the key
-- repetition, the memory watcher, and tasks that the engine posts to the platform event loop.
--
-- EventLoop: `PlatformEventLoop` of src/event_loop.h and src/event_loop.cc, and `RunFlutterTask`.
-- `post_task` is `PostTask`, `process_events` is `ProcessEvents` and `wake` is `Wake`. The
-- priority queue is a list in the order of `Task::Comparer` (Queue). Threads has the steps that
-- the mutex and the atomic counter make indivisible, in any order of the threads; Orders is about the
-- numbers that they draw, Confluence about the order of the threads, and Progress about the tasks
-- that are due. PriorityQueue has the same steps over `std::priority_queue`, with the loop of
-- `ProcessEvents` turn by turn (`drain`): the queue is a record of its members and of what the
-- standard says of them, and Unsorted is one that searches for its top. The fuel of `drain` is a turn
-- for each task and one for the test that ends the loop.
-- Vsync: the member `vsync`: `vsync_handler` is `vSyncHandler`, `vsync_callback` is the engine's
-- callback in `SetupEngine`, `vsync_notify_data` is both `vSyncReadNotifyData` and
-- `vSyncSendNotifyData`; `presented`, `presentation_clock_id` and `frame_done` are listeners.
-- Handoff has the steps of the two threads that share the baton, and Refinement the exchange of
-- requests, notices and answers whose traces theirs are.
-- Time: the conversions of src/utils.h and `set_sleep_to_next_platform_event`.
-- Keyboard: the keyboard listener, `key_handler`, and `toGDKModifiers` of src/keys.cc (Modifiers).
-- MemoryWatcher: `HandleMemoryWatcherEvent`, and `SetupMemoryWatcher` and `CleanupMemoryWatcher`
-- (Setup; its Format is about the form of the levels that the usage text documents).
-- Locale: `FlutterParseLocale` of src/utils.cc.
-- Window: the listeners of the shell surface, the output and the pointer, and the metrics that
-- `SetupEngine` sends.
-- Elf: `Aot_LoadELF` of src/elf.cc, with `LoadedElf`.
-- Files: the paths and the environment of src/utils.cc.
-- Lifecycle: the constructor with `SetupEGL` and `SetupEngine`, and the destructor, with the handles
-- that it releases and those that nothing releases.
-- Debug: src/debug.cc, and the messages of EGL errors of src/egl_utils.cc.
-- Renderer: the OpenGL callbacks that `SetupEngine` gives to the engine, over an interface of EGL.
-- Engine: the arguments that the engine is initialized with, and `FlutterSendMessage`.
-- Registry: the listeners of the registry and the seat, and the ping of the shell surface.
-- Entry: `Main` and `main` of src/main.cc, composed of the other parts, with the first lines of
-- `Run` and `ConfigurePlatformTaskRunner`. Promises takes what holds of every run of the main loop to
-- the life of the program: Notices its warnings and frames, Accounts its batons and
-- tasks. Given is about what the engine is initialized with, Release about the end of the process.
-- MainLoop: `WaylandDisplay::Run`, which calls the functions of the other parts. Traces takes what
-- holds of each of its parts to what holds of every run; Invariant is about what its state keeps,
-- Warnings and Frames about the engine's warnings and frames, Tally and Timeouts about its other
-- calls, and Wakeup about the tasks of the event loop. History makes a run a sequence of actions of the
-- main thread, by the clocks and answers of its rounds, and of the other threads,
-- and adds up the batons (Batons) and the tasks (Tasks) over it; Times says when tasks run.
-- Base: numbers, lists, texts, bits, and system calls that are tried again.
--
-- Words of 32 and 64 bits are natural numbers with `% 2 ^ w` where the code can wrap; signed
-- numbers are integers. The clock is an argument of each function that reads it. A system call that
-- is repeated until it is not interrupted takes the list of its results, and gives `none` where the
-- list ends first. libxkbcommon, the engine and the kernel are arguments: functions, records of
-- functions (`EventLoop.PriorityQueue.PriorityQueue`, `Keyboard.XkbCommon.Xkb`, `Renderer.Egl`,
-- `MemoryWatcher.Setup.Os`, `Engine.Sources`, `Entry.Outside`) or results. A shift by 32 or more and a division by zero are `none`. A run of the
-- main loop takes the list of its iterations and rounds; what the listeners, the tasks and the other
-- threads of the engine do between is an arbitrary function, or a sequence of the changes of
-- `MainLoop.Listeners.Changed`. The threads act at each `MainLoop.Moment`: the steps of the main thread between
-- two such moments see nothing that the threads change.
--
-- Not modelled: memory management, the text of the usage, and the attributes that EGL is given. What
-- the compositor, EGL, the engine, libxkbcommon and the kernel do is given by arguments.
pub mod Base
pub mod EventLoop
pub mod Vsync
pub mod Time
pub mod Keyboard
pub mod MemoryWatcher
pub mod Locale
pub mod Window
pub mod Elf
pub mod Files
pub mod Lifecycle
pub mod Debug
pub mod Renderer
pub mod Engine
pub mod Registry
pub mod MainLoop
pub mod Entry
