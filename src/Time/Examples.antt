-- ===== src/Time/Examples.antt =====
-- Times of the main loop.
use flutter_embedder_wayland.Base.{◌≡◌, refl}
use flutter_embedder_wayland.Base.Int.{negsuc}
use flutter_embedder_wayland.Time.{timespec_from_nsec}

-- Division rounds towards zero.
negative_time :
    timespec_from_nsec (negsuc 1_500_000_000)
    ≡ record { tv_sec = negsuc 0; tv_nsec = negsuc 500_000_000 }
unfolding timespec_from_nsec
negative_time = refl
