-- ===== src/Debug.antt =====
-- src/debug.cc and src/egl_utils.cc: the level of the environment variable, the messages that it
-- lets through, and the messages of EGL errors. The table `prioritynames` of <syslog.h> is an
-- argument.
pub mod Levels
pub mod Messages
mod Examples
use flutter_embedder_wayland.Base.{
  ℕ, ◌+◌, ◌-◌, Bool, true, false, ◌||◌, not, List, [], ◌∷◌, ◌++◌, Option, none, some, ltb, ◌==◌,
  if◌then◌else◌, length, take,
}
use flutter_embedder_wayland.Base.Text.{Bytes, codes, to_string}
use flutter_embedder_wayland.Locale.{c_str}
use flutter_embedder_wayland.Files.{get_env_string}

-- LOG_ERR, LOG_WARNING, LOG_INFO and LOG_DEBUG of <syslog.h>.
abbrev pub log_err : ℕ
log_err = 3

abbrev pub log_warning : ℕ
log_warning = 4

abbrev pub log_info : ℕ
log_info = 6

abbrev pub log_debug : ℕ
log_debug = 7

starts_with : Bytes → Bytes → Bool
starts_with [] s = true
starts_with (c ∷ cs) [] = false
starts_with (c ∷ cs) (x ∷ s) = let rest = starts_with cs s in if c == x then rest else false

-- strstr(3): whether `s` holds `text`.
unfoldable pub contains : Bytes → Bytes → Bool
unfolding starts_with
contains [] text = starts_with text []
contains (x ∷ s) text = starts_with text (x ∷ s) || contains s text

-- `syslog2level`: the loop over the table.
unfoldable pub syslog2level : List (Bytes × ℕ) → Bytes → ℕ
unfolding contains
syslog2level [] priority = log_info
syslog2level ((name, value) ∷ rest) priority =
    let later = syslog2level rest priority in if contains name priority then value else later

-- `dbg_init`: `debug_level`.
unfoldable pub dbg_init : List (Bytes × ℕ) → (Bytes → Option Bytes) → ℕ
unfolding syslog2level get_env_string
dbg_init names getenv =
    syslog2level names
      (get_env_string getenv (some (codes "FLUTTER_LAUNCHER_WAYLAND_DEBUG")) (codes "info"))

-- The test of the functions that `dbg` defines: whether a message is printed.
unfoldable pub is_shown : ℕ → ℕ → Bool
is_shown debug_level priority = not (ltb debug_level priority)

-- `priority2prefix`.
unfoldable pub priority2prefix : ℕ → Bytes
priority2prefix priority =
    if priority == log_err
    then codes "ERROR: "
    else if priority == log_warning
    then codes "WARNING: "
    else if priority == log_info
    then codes "INFO: "
    else if priority == log_debug
    then codes "TRACE: "
    else codes "UNKNOWN: "

-- What vsnprintf(3) stores of a text in a buffer of a size, with its NUL.
abbrev pub stored : ℕ → Bytes → Bytes
stored size text = take (size - 1) text ++ 0 ∷ []

-- `vdbg`: what is printed, by the text that the format and its arguments stand for; `none` is a
-- negative result of vsnprintf(3). A text that does not fit the buffer `buf` is rendered again.
unfoldable pub vdbg : ℕ → Option Bytes → Bytes
unfolding priority2prefix
vdbg priority none = []
vdbg priority (some text) =
    if ltb (length text) 256
    then priority2prefix priority ++ c_str (stored 256 text)
    else priority2prefix priority ++ c_str (stored (length text + 1) text)

-- The functions `dbgE`, `dbgW`, `dbgI` and `dbgT`, each with its priority.
unfoldable pub dbg : ℕ → ℕ → Option Bytes → Bytes
unfolding is_shown vdbg
dbg debug_level priority rendered =
    if is_shown debug_level priority then vdbg priority rendered else []

-- The names and codes of src/egl_utils.cc, the codes as EGL/egl.h has them.
abbrev pub egl_errors : List (Bytes × ℕ)
egl_errors =
    (codes "EGL_SUCCESS", 0x3000)
    ∷ (codes "EGL_NOT_INITIALIZED", 0x3001)
    ∷ (codes "EGL_BAD_ACCESS", 0x3002)
    ∷ (codes "EGL_BAD_ALLOC", 0x3003)
    ∷ (codes "EGL_BAD_ATTRIBUTE", 0x3004)
    ∷ (codes "EGL_BAD_CONTEXT", 0x3006)
    ∷ (codes "EGL_BAD_CONFIG", 0x3005)
    ∷ (codes "EGL_BAD_CURRENT_SURFACE", 0x3007)
    ∷ (codes "EGL_BAD_DISPLAY", 0x3008)
    ∷ (codes "EGL_BAD_SURFACE", 0x300d)
    ∷ (codes "EGL_BAD_MATCH", 0x3009)
    ∷ (codes "EGL_BAD_PARAMETER", 0x300c)
    ∷ (codes "EGL_BAD_NATIVE_PIXMAP", 0x300a)
    ∷ (codes "EGL_BAD_NATIVE_WINDOW", 0x300b)
    ∷ (codes "EGL_CONTEXT_LOST", 0x300e)
    ∷ []

-- The loop of `LogLastEGLError`: the text of the message for a code, which is not negative.
unfoldable pub egl_error_text : List (Bytes × ℕ) → ℕ → Bytes
egl_error_text [] last_error = codes "Unknown EGL Error (" ++ (to_string last_error ++ codes ")\n")
egl_error_text ((name, code) ∷ rest) last_error =
    let later = egl_error_text rest last_error in
    if last_error == code
    then codes "EGL Error: " ++ (name ++ (codes " (code: " ++ (to_string code ++ codes ")\n")))
    else later

-- `LogLastEGLError`, with the result of eglGetError: what is printed.
unfoldable pub log_last_egl_error : ℕ → ℕ → Bytes
unfolding dbg egl_error_text
log_last_egl_error debug_level last_error =
    dbg debug_level log_err (some (egl_error_text egl_errors last_error))
