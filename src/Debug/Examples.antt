-- ===== src/Debug/Examples.antt =====
-- A part of the table of <syslog.h>.
use flutter_embedder_wayland.Base.{ℕ, ◌≡◌, refl, List, [], ◌∷◌, ◌++◌}
use flutter_embedder_wayland.Base.Text.{Bytes, codes, to_string}
use flutter_embedder_wayland.Locale.{c_str}
use flutter_embedder_wayland.Debug.{log_last_egl_error, syslog2level}

abbrev alert_and_crit : List (Bytes × ℕ)
alert_and_crit = (codes "alert", 1) ∷ (codes "crit", 2) ∷ []

-- The first name that holds an "r" is "alert".
first_match : syslog2level (alert_and_crit ++ (codes "err", 3) ∷ []) (codes "r") ≡ 1
unfolding syslog2level
first_match = refl

-- A surface that is lost, at the level of errors.
egl_message :
    log_last_egl_error 3 0x300d ≡ codes "ERROR: EGL Error: EGL_BAD_SURFACE (code: 12301)\n"
unfolding log_last_egl_error to_string c_str
egl_message = refl
