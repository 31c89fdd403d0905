-- ===== src/Server/Calls/Reply.antt =====
-- To whom a reply goes: how each step of a request changes it.
use open_broadcast_intercom.Base.{
  ℕ, ◌≡◌, refl, ◌∙◌, inl, inr, Bool, true, ◌&&◌, Option, some, arith, ◌==◌, nat_eq, if◌then◌else◌,
  Option-cases,
}
use mathlib.Core.Option
use open_broadcast_intercom.Base.Map
use open_broadcast_intercom.Base.Map.{
  Map, get-modify, get-or_insert, get-insert, get-remove, contains_key-get,
}
use open_broadcast_intercom.Server.Gains.{Gains}
use open_broadcast_intercom.Server.State.{Session, new_session}
use open_broadcast_intercom.Server.Calls.{
  trim_calls, trim_direct_history, caller_side, target_side, call_sessions,
}

module _ {F : Type 0} where
  -- the caller that a reply goes to
  unfoldable pub reply_target : Map (Session F) → ℕ → Option ℕ
  unfolding Option.bind
  reply_target sessions u = Option.bind (Map.get sessions u) λ s. s.last_direct_caller

module _ (g : Gains) where
  open g use {F}

  pub reply-modify :
      (sessions : Map (Session F)) (k : ℕ) (f : Session F → Session F)
      → ((s : Session F) → (f s).last_direct_caller ≡ s.last_direct_caller)
      → (v : ℕ) → reply_target (Map.modify sessions k f) v ≡ reply_target sessions v
  unfolding reply_target
  reply-modify sessions k f h v = elim (Option-cases (Map.get sessions v)) [
    | inl e ↦ ground (arith, get-modify sessions k v f)
    | inr (s, e) ↦ ground (arith, get-modify sessions k v f, h s)
  ]

  pub caller_side-reply :
      (now u t : ℕ) (active duck : Bool) (s : Session F)
      → (caller_side now u t active duck s).last_direct_caller ≡ s.last_direct_caller
  unfolding caller_side
  caller_side-reply now u t active duck s = ground arith

  pub reply-or_insert :
      (sessions : Map (Session F)) (u now v : ℕ)
      → reply_target (Map.or_insert sessions u (new_session g now)) v ≡ reply_target sessions v
  unfolding reply_target new_session
  reply-or_insert sessions u now v =
      ground (arith, get-or_insert sessions u v (new_session g now), contains_key-get sessions u)

  pub reply-target_side :
      (sessions : Map (Session F)) (now u t : ℕ) (active duck : Bool) (v : ℕ)
      → Map.contains_key sessions t ≡ true
      → reply_target (Map.modify sessions t (target_side now u t active duck)) v
        ≡ (if v == t && active then some u else reply_target sessions v)
  unfolding reply_target target_side
  reply-target_side sessions now u t active duck v h = elim (Option-cases (Map.get sessions v)) [
    | inl e ↦ ground (
      arith,
      get-modify sessions t v (target_side now u t active duck),
      contains_key-get sessions t,
    )
    | inr (s, e) ↦ ground (arith, get-modify sessions t v (target_side now u t active duck))
  ]

  pub modify_has :
      (sessions : Map (Session F)) (k j : ℕ) (f : Session F → Session F)
      → Map.contains_key (Map.modify sessions k f) j ≡ Map.contains_key sessions j
  modify_has sessions k j f = ground (
    arith,
    contains_key-get (Map.modify sessions k f) j,
    get-modify sessions k j f,
    contains_key-get sessions j,
  )

  pub or_insert_keeps :
      (sessions : Map (Session F)) (k j : ℕ) (s : Session F)
      → Map.contains_key sessions j ≡ true
      → Map.contains_key (Map.or_insert sessions k s) j ≡ true
  or_insert_keeps sessions k j s h = ground (
    arith,
    contains_key-get (Map.or_insert sessions k s) j,
    get-or_insert sessions k j s,
    contains_key-get sessions j,
  )

  pub reply-call_sessions :
      (sessions : Map (Session F)) (now u t : ℕ) (active duck : Bool) (v : ℕ)
      → Map.contains_key sessions t ≡ true
      → reply_target (call_sessions g sessions now u t active duck) v
        ≡ (if v == t && active then some u else reply_target sessions v)
  unfolding call_sessions trim_direct_history
  reply-call_sessions sessions now u t active duck v h =
      let entered = Map.or_insert sessions u (new_session g now) in
      let side = caller_side now u t active duck in
      reply-modify _ t trim_calls (λ s. refl) v
      ∙ reply-modify _ u trim_calls (λ s. refl) v
      ∙ reply-target_side (Map.modify entered u side) now u t active duck v
          (modify_has entered u t side ∙ or_insert_keeps sessions u t (new_session g now) h)
      ∙ ground (
        arith,
        reply-modify entered u side (caller_side-reply now u t active duck) v,
        reply-or_insert sessions u now v,
      )
