-- ===== src/Renderer/Current.antt =====
-- What the engine is told, and what is current.
use flutter_embedder_wayland.Base.{
  ℕ, ◌≡◌, refl, sym, ◌∙◌, ap, Bool, true, false, List, [], ◌∷◌, arith, All,
}
use flutter_embedder_wayland.Renderer.{
  Binding, Egl, Handles, Callback, make_current, clear_current, present, make_resource_current,
  onscreen, nothing, resource, egl_call, callback, callbacks,
}

-- What is current by the results that the engine has got.
abbrev pub told : Handles → Binding → List (Callback × Bool) → Binding
told h b [] = b
told h b ((make_current, true) ∷ rs) = told h (onscreen h) rs
told h b ((clear_current, true) ∷ rs) = told h nothing rs
told h b ((make_resource_current, true) ∷ rs) = told h (resource h) rs
told h b (_ ∷ rs) = told h b rs

module _ {E : Type 0} (egl : Egl E) (debug_level : ℕ) (h : Handles) where
  egl_call-current :
      (c : Callback) (e : E)
      → egl.current (egl_call egl debug_level h c e).1
        ≡ told h (egl.current e) ((c, (egl_call egl debug_level h c e).0) ∷ [])
  unfolding egl_call
  egl_call-current make_current e = ground (arith, egl.make_current-current (onscreen h) e)
  egl_call-current clear_current e = ground (arith, egl.make_current-current nothing e)
  egl_call-current present e = egl.swap_buffers-current h.egl_surface e
  egl_call-current make_resource_current e = ground (arith, egl.make_current-current (resource h) e)

  callback-current :
      (c : Callback) (e : E)
      → egl.current (callback egl debug_level h c e).1.0
        ≡ told h (egl.current e) ((c, (callback egl debug_level h c e).0) ∷ [])
  unfolding callback
  callback-current c e =
      ground (arith, egl_call-current c e, egl.get_error-current (egl_call egl debug_level h c e).1)

  told-cons :
      (b : Binding) (r : Callback × Bool) (rs : List (Callback × Bool))
      → told h b (r ∷ rs) ≡ told h (told h b (r ∷ [])) rs
  told-cons b (make_current, true) rs = refl
  told-cons b (make_current, false) rs = refl
  told-cons b (clear_current, true) rs = refl
  told-cons b (clear_current, false) rs = refl
  told-cons b (present, ok) rs = refl
  told-cons b (make_resource_current, true) rs = refl
  told-cons b (make_resource_current, false) rs = refl

  callbacks-current :
      (cs : List Callback) (e : E)
      → egl.current (callbacks egl debug_level h cs e).1.0
        ≡ told h (egl.current e) (callbacks egl debug_level h cs e).0
  unfolding callbacks
  callbacks-current [] e = refl
  callbacks-current (c ∷ cs) e =
      let e₁ = (callback egl debug_level h c e).1.0 in
      let rs = (callbacks egl debug_level h cs e₁).0 in
      callbacks-current cs e₁
      ∙ ap (λ b. told h b rs) (callback-current c e)
      ∙ sym (told-cons (egl.current e) (c, (callback egl debug_level h c e).0) rs)

  callback_silent :
      (c : Callback) (e : E)
      → (callback egl debug_level h c e).0 ≡ true
      → (callback egl debug_level h c e).1.1 ≡ []
  unfolding callback
  callback_silent c e k = ground arith

  callbacks_silent :
      (cs : List Callback) (e : E)
      → All (λ r. r.1 ≡ true) (callbacks egl debug_level h cs e).0
      → (callbacks egl debug_level h cs e).1.1 ≡ []
  unfolding callbacks
  callbacks_silent [] e k = refl
  callbacks_silent (c ∷ cs) e k =
      rw (callback_silent c e k.0) (callbacks_silent cs (callback egl debug_level h c e).1.0 k.1)

  -- After any callbacks of the renderer in one thread, what is current in the thread is what the
  -- results say that the engine has got: the handles of the last one of `make_current`,
  -- `clear_current` and `make_resource_current` that returned true, or what was current before if
  -- none did. If all callbacks returned true, nothing is printed.
  pub callbacks_lem :
      (cs : List Callback) (e : E)
      → let (results, (e', printed)) = callbacks egl debug_level h cs e in
        (egl.current e' ≡ told h (egl.current e) results)
        × (All (λ r. r.1 ≡ true) results → printed ≡ [])
  callbacks_lem cs e = (callbacks-current cs e, callbacks_silent cs e)
