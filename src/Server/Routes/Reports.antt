-- ===== src/Server/Routes/Reports.antt =====
-- The calls that are reported to a user: which of them are the user's own.
use open_broadcast_intercom.Base.{
  ℕ, inl, inr, ◌≡◌, refl, ap, ◌∙◌, Bool, true, false, ◌&&◌, ◌||◌, none, some, List, [], ◌∷◌, ◌++◌,
  ◌==◌, nat_eq, arith, any, filter, contains, nat_beq_iff, Option-cases, contains-filter,
  contains-append,
}
use mathlib.Core.List.{map}
use open_broadcast_intercom.Base.Map
use open_broadcast_intercom.Base.Map.{Map, contains-keys, contains_key-get}
use open_broadcast_intercom.Base.Sorted.{mem, mem-sorted_unique, sorted_unique, eq_of_ord}
use open_broadcast_intercom.Control.{TalkButtonConfig}
use open_broadcast_intercom.Control.Actions.{transmit_users, users_of, button_targets}
use open_broadcast_intercom.Client.Targets.{calls_now}
use open_broadcast_intercom.Server.State.{Session}
use open_broadcast_intercom.Server.Buttons.{pressed_buttons}
use open_broadcast_intercom.Server.Routes.{
  CallKey, key_ord, key_of, button_calls, calls_of, all_calls, status_of,
  active_direct_call_statuses_for_user,
}

users-keys : (ps : List (ℕ × Bool)) → users_of ps ≡ Map.keys ps
unfolding Map.keys
users-keys [] = refl
users-keys ((t, duck) ∷ ps) = ap (λ ts. t ∷ ts) (users-keys ps)

keys-append :
    (ps qs : List (ℕ × Bool)) (t : ℕ)
    → contains (Map.keys (ps ++ qs)) t ≡ (contains (Map.keys ps) t || contains (Map.keys qs) t)
unfolding Map.keys contains
keys-append [] qs t = refl
keys-append ((u, duck) ∷ ps) qs t = ground (arith, keys-append ps qs t)

button_calls-targets :
    (buttons : List TalkButtonConfig) (t : ℕ)
    → contains (Map.keys (button_calls buttons)) t ≡ contains (button_targets buttons) t
unfolding Map.keys
button_calls-targets [] t = refl
button_calls-targets (b ∷ buttons) t = ground (
  arith,
  keys-append (transmit_users b.actions) (button_calls buttons) t,
  contains-append (users_of (transmit_users b.actions)) (button_targets buttons) t,
  users-keys (transmit_users b.actions),
  button_calls-targets buttons t,
)

-- the key of a call from `u` to `t`, whatever its ducking
abbrev either : List CallKey → ℕ → ℕ → Bool
either calls u t = mem key_ord calls (key_of u (t, true)) || mem key_ord calls (key_of u (t, false))

either-keys :
    (k : ℕ) (ps : List (ℕ × Bool)) (u t : ℕ)
    → either (map (key_of k) ps) u t ≡ (k == u && contains (Map.keys ps) t)
unfolding contains Map.keys
either-keys k [] u t = ground arith
either-keys k ((v, true) ∷ ps) u t = ground (arith, either-keys k ps u t)
either-keys k ((v, false) ∷ ps) u t = ground (arith, either-keys k ps u t)

either-append :
    (xs ys : List CallKey) (u t : ℕ) → either (xs ++ ys) u t ≡ (either xs u t || either ys u t)
unfolding contains
either-append [] ys u t = refl
either-append (x ∷ xs) ys u t = ground (arith, either-append xs ys u t)

either-filter :
    (xs : List CallKey) (u t : ℕ)
    → either (filter (λ (call : CallKey). call.caller == u || call.target == u) xs) u t
      ≡ either xs u t
either-filter xs u t = ground (
  arith,
  contains-filter ⦃e = eq_of_ord key_ord⦄ (λ (call : CallKey). call.caller == u || call.target == u)
      xs (key_of u (t, true)),
  contains-filter ⦃e = eq_of_ord key_ord⦄ (λ (call : CallKey). call.caller == u || call.target == u)
      xs (key_of u (t, false)),
)

module _ {F : Type 0} where
  -- a call that the session has, or that one of its active buttons makes
  abbrev pub calls_user : Session F → ℕ → Bool
  calls_user session t =
      Map.contains_key session.active_direct_calls t
      || contains (button_targets (pressed_buttons session)) t

  either-calls_of :
      (k u t : ℕ) (session : Session F)
      → either (calls_of u k session) u t ≡ (k == u && calls_user session t)
  unfolding calls_of
  either-calls_of k u t session =
      let calls = session.active_direct_calls ++ button_calls (pressed_buttons session) in
      either-filter (map (key_of k) calls) u t
      ∙ either-keys k calls u t
      ∙ ground (
        arith,
        keys-append session.active_direct_calls (button_calls (pressed_buttons session)) t,
        button_calls-targets (pressed_buttons session) t,
        contains-keys session.active_direct_calls t,
      )

  either-all_calls :
      (u t : ℕ) (sessions : Map (Session F)) (callers : List ℕ)
      → either (all_calls u sessions callers) u t ≡ (
          contains callers u
          && elim (Map.get sessions u) [ none ↦ false | some session ↦ calls_user session t ])
  unfolding all_calls contains Map.get
  either-all_calls u t sessions [] = refl
  either-all_calls u t sessions (k ∷ callers) = elim (Option-cases (Map.get sessions k)) [
    | inl e ↦ rw e (ground (arith, either-all_calls u t sessions callers, nat_beq_iff k u))
    | inr (session, e) ↦ rw e (
        ground (
          arith,
          either-append (calls_of u k session) (all_calls u sessions callers) u t,
          either-calls_of k u t session,
          either-all_calls u t sessions callers,
          nat_beq_iff k u,
        ))
  ]

  calls_now-statuses :
      (sessions : Map (Session F)) (keys : List CallKey) (u t : ℕ)
      → calls_now (map (status_of sessions) keys) u t ≡ either keys u t
  unfolding calls_now any contains
  calls_now-statuses sessions [] u t = refl
  calls_now-statuses sessions (key ∷ keys) u t =
      ground (arith, calls_now-statuses sessions keys u t)

  -- The calls that the server reports to a user as that user's own, to a target, are exactly those
  -- of the user's session: its active direct calls, and the users of its active buttons.
  pub reports_exact :
      (sessions : Map (Session F)) (u t : ℕ)
      → calls_now (active_direct_call_statuses_for_user u sessions) u t
        ≡ elim (Map.get sessions u) [ none ↦ false | some session ↦ calls_user session t ]
  unfolding active_direct_call_statuses_for_user
  reports_exact sessions u t =
      let calls = all_calls u sessions (Map.keys sessions) in
      calls_now-statuses sessions (sorted_unique key_ord calls) u t
      ∙ ground (
        arith,
        mem-sorted_unique key_ord calls (key_of u (t, true)),
        mem-sorted_unique key_ord calls (key_of u (t, false)),
        either-all_calls u t sessions (Map.keys sessions),
        contains-keys sessions u,
        contains_key-get sessions u,
      )
