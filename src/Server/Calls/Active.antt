-- ===== src/Server/Calls/Active.antt =====
-- Which direct calls are active: how each step of a request changes them.
use open_broadcast_intercom.Base.{
  ℕ, ◌≡◌, refl, ◌∙◌, inl, inr, Bool, true, ◌&&◌, Option, none, some, arith, ◌==◌, nat_eq,
  if◌then◌else◌, Option-cases,
}
use mathlib.Core.Option
use open_broadcast_intercom.Base.Map
use open_broadcast_intercom.Base.Map.{
  Map, get-modify, get-or_insert, get-insert, get-remove, contains_key-get,
}
use open_broadcast_intercom.Server.Gains.{Gains}
use open_broadcast_intercom.Server.State.{Session, new_session}
use open_broadcast_intercom.Server.Calls.{
  trim_calls, trim_direct_history, caller_side, target_side, call_sessions,
}

module _ {F : Type 0} where
  -- the active call of one user to another, as its `duck`
  unfoldable pub in_call : Map (Session F) → ℕ → ℕ → Option Bool
  unfolding Option.bind
  in_call sessions u t = Option.bind (Map.get sessions u) λ s. Map.get s.active_direct_calls t

  pub in_call-modify :
      (sessions : Map (Session F)) (k : ℕ) (f : Session F → Session F)
      → ((s : Session F) → (f s).active_direct_calls ≡ s.active_direct_calls)
      → (v w : ℕ) → in_call (Map.modify sessions k f) v w ≡ in_call sessions v w
  unfolding in_call
  in_call-modify sessions k f h v w = elim (Option-cases (Map.get sessions v)) [
    | inl e ↦ ground (arith, get-modify sessions k v f)
    | inr (s, e) ↦ ground (arith, get-modify sessions k v f, h s)
  ]

  pub in_call-caller :
      (sessions : Map (Session F)) (now u t : ℕ) (active duck : Bool) (v w : ℕ)
      → Map.contains_key sessions u ≡ true
      → in_call (Map.modify sessions u (caller_side now u t active duck)) v w
        ≡ (if v == u && w == t then (if active then some duck else none) else in_call sessions v w)
  unfolding in_call caller_side
  in_call-caller sessions now u t active duck v w h = elim (Option-cases (Map.get sessions v)) [
    | inl e ↦ ground (
      arith,
      get-modify sessions u v (caller_side now u t active duck),
      contains_key-get sessions u,
    )
    | inr (s, e) ↦ ground (
      arith,
      get-modify sessions u v (caller_side now u t active duck),
      get-insert s.active_direct_calls t w duck,
      get-remove s.active_direct_calls t w,
    )
  ]

module _ (g : Gains) where
  open g use {F}

  pub in_call-or_insert :
      (sessions : Map (Session F)) (u now v w : ℕ)
      → in_call (Map.or_insert sessions u (new_session g now)) v w ≡ in_call sessions v w
  unfolding in_call new_session Map.get
  in_call-or_insert sessions u now v w =
      ground (arith, get-or_insert sessions u v (new_session g now), contains_key-get sessions u)

  pub or_insert_has :
      (sessions : Map (Session F)) (u : ℕ) (s : Session F)
      → Map.contains_key (Map.or_insert sessions u s) u ≡ true
  or_insert_has sessions u s = ground (
    arith,
    contains_key-get (Map.or_insert sessions u s) u,
    get-or_insert sessions u u s,
    contains_key-get sessions u,
  )

  pub target_side-calls :
      (now u t : ℕ) (active duck : Bool) (s : Session F)
      → (target_side now u t active duck s).active_direct_calls ≡ s.active_direct_calls
  unfolding target_side
  target_side-calls now u t active duck s = ground arith

  pub in_call-call_sessions :
      (sessions : Map (Session F)) (now u t : ℕ) (active duck : Bool) (v w : ℕ)
      → in_call (call_sessions g sessions now u t active duck) v w
        ≡ (if v == u && w == t then (if active then some duck else none) else in_call sessions v w)
  unfolding call_sessions trim_direct_history
  in_call-call_sessions sessions now u t active duck v w =
      in_call-modify _ t trim_calls (λ s. refl) v w
      ∙ in_call-modify _ u trim_calls (λ s. refl) v w
      ∙ in_call-modify _ t (target_side now u t active duck) (target_side-calls now u t active duck)
          v w
      ∙ in_call-caller (Map.or_insert sessions u (new_session g now)) now u t active duck v w
          (or_insert_has sessions u (new_session g now))
      ∙ ground (arith, in_call-or_insert sessions u now v w)
