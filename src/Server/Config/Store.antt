-- ===== src/Server/Config/Store.antt =====
-- What the admin state and the sessions hold after a configuration is applied.
use open_broadcast_intercom.Base.{
  ℕ, ◌≡◌, refl, ◌∙◌, ap, Bool, true, false, none, some, List, [], ◌∷◌, ◌++◌, arith, ◌==◌, nat_eq,
  nat_beq_iff, if◌then◌else◌, find, any, update_first, Bool-cases, Option-cases, inl, inr,
}
use open_broadcast_intercom.Base.Map
use open_broadcast_intercom.Base.Map.{Map, get-modify, get-or_insert, contains_key-get}
use open_broadcast_intercom.Base.Stable.{sort_by, find-sort_by}
use open_broadcast_intercom.Server.Gains.{Gains}
use open_broadcast_intercom.Server.State.{Session, new_session, push-SameCore}
use open_broadcast_intercom.Server.Config.Desired.{
  DesiredClientConfig, AdminState, Limits, new_desired, desired_of, desired_client, is_for,
  user_id_le, upsert_desired_client, desired_baseline_for_user,
}
use open_broadcast_intercom.Server.Config.Apply.{
  apply_desired_to_session_fields, apply_desired_to_live_session,
}
use open_broadcast_intercom.Server.Config.Handle.{
  Managed, tidy, admin_with, apply_desired_client, baseline_of,
}

module _ {F : Type 0} where
  same_id :
      (u : ℕ) (a b : DesiredClientConfig F)
      → is_for u a ≡ true
      → is_for u b ≡ true
      → user_id_le a b ≡ true
  same_id u a b h k = ground arith

  find-sorted :
      (u : ℕ) (xs : List (DesiredClientConfig F))
      → find (is_for u) (sort_by user_id_le xs) ≡ find (is_for u) xs
  find-sorted u xs = find-sort_by (is_for u) user_id_le xs (same_id u)

  find-update_first :
      (u k : ℕ) (d : DesiredClientConfig F) (xs : List (DesiredClientConfig F))
      → d.user_id ≡ k
      → find (is_for u) (update_first (is_for k) (λ _. d) xs)
        ≡ (if u == k then if any (is_for k) xs then some d else none else find (is_for u) xs)
  unfolding find update_first any
  find-update_first u k d [] e = ground arith
  find-update_first u k d (x ∷ xs) e = ground (arith, find-update_first u k d xs)

  find-append :
      (u : ℕ) (d : DesiredClientConfig F) (xs : List (DesiredClientConfig F))
      → find (is_for u) (xs ++ d ∷ [])
        ≡ elim (find (is_for u) xs) [ none ↦ if is_for u d then some d else none | some x ↦ some x ]
  unfolding find
  find-append u d [] = refl
  find-append u d (x ∷ xs) = ground (arith, find-append u d xs)

  find-any :
      (u : ℕ) (xs : List (DesiredClientConfig F))
      → any (is_for u) xs ≡ false
      → find (is_for u) xs ≡ none
  unfolding find any
  find-any u [] e = refl
  find-any u (x ∷ xs) e = ground (arith, find-any u xs)

  find-is_for :
      (u : ℕ) (xs : List (DesiredClientConfig F)) (d : DesiredClientConfig F)
      → find (is_for u) xs ≡ some d
      → d.user_id ≡ u
  unfolding find
  find-is_for u [] d e = ground arith
  find-is_for u (x ∷ xs) d e = ground (arith, find-is_for u xs d)

  -- After it is stored, a configuration is the one of its user, and those of others are as before.
  pub desired_client-upsert :
      (xs : List (DesiredClientConfig F)) (d : DesiredClientConfig F) (u : ℕ)
      → find (is_for u) (upsert_desired_client xs d)
        ≡ (if u == d.user_id then some d else find (is_for u) xs)
  unfolding upsert_desired_client
  desired_client-upsert xs d u = elim (Bool-cases (any (is_for d.user_id) xs)) [
    | inl e ↦ rw e (
        find-sorted u (update_first (is_for d.user_id) (λ _. d) xs)
        ∙ find-update_first u d.user_id d xs refl
        ∙ rw e refl)
    | inr e ↦ rw e (find-sorted u (xs ++ d ∷ []) ∙ find-append u d xs ∙ appended e)
  ]
    where
      appended :
          any (is_for d.user_id) xs ≡ false
          → elim (find (is_for u) xs) [
            | none ↦ if is_for u d then some d else none
            | some x ↦ some x
          ]
            ≡ (if u == d.user_id then some d else find (is_for u) xs)
      appended e = elim (Bool-cases (u == d.user_id)) [
        | inl k ↦ ground (arith, find-any d.user_id xs e, (nat_beq_iff u d.user_id).0 k)
        | inr k ↦ ground arith
      ]

  desired_client-is_for :
      (admin : AdminState F) (u : ℕ) (d : DesiredClientConfig F)
      → desired_client admin u ≡ some d
      → d.user_id ≡ u
  unfolding desired_client
  desired_client-is_for admin u d e = find-is_for u admin.clients d e

module _ (g : Gains) where
  open g use {F}

  -- The configuration of a user is kept under the user's identifier.
  pub user_id-baseline :
      (admin : AdminState F) (sessions : Map (Session F)) (u : ℕ)
      → (desired_baseline_for_user g admin sessions u).user_id ≡ u
  unfolding desired_baseline_for_user new_desired
  user_id-baseline admin sessions u = elim (Option-cases (desired_client admin u)) [
    | inr (d, e) ↦ rw (e, desired_baseline_for_user) (desired_client-is_for admin u d e)
    | inl e ↦ elim (Option-cases (Map.get sessions u)) [
      | inl f ↦ rw (e, f, desired_baseline_for_user) refl
      | inr (s, f) ↦ rw (e, f, desired_baseline_for_user) refl
    ]
  ]

  session-applied :
      (limits : Limits F) (now : ℕ) (d : DesiredClientConfig F) (sessions : Map (Session F)) (v : ℕ)
      → (v == d.user_id) ≡ false
      → Map.get (apply_desired_to_live_session g limits now d sessions) v ≡ Map.get sessions v
  unfolding apply_desired_to_live_session
  session-applied limits now d sessions v h = ground (
    arith,
    get-modify (Map.or_insert sessions d.user_id (new_session g now)) d.user_id v (λ session.
        record (apply_desired_to_session_fields g limits d session) { last_seen = now }),
    get-or_insert sessions d.user_id v (new_session g now),
  )

  -- the baseline depends on the user's entry and session only
  baseline_same :
      (admin admin' : AdminState F) (sessions sessions' : Map (Session F)) (v : ℕ)
      → desired_client admin' v ≡ desired_client admin v
      → Map.get sessions' v ≡ Map.get sessions v
      → desired_baseline_for_user g admin' sessions' v
        ≡ desired_baseline_for_user g admin sessions v
  unfolding desired_baseline_for_user
  baseline_same admin admin' sessions sessions' v e f = λ i. elim (e i) [
    | some desired ↦ desired
    | none ↦ elim (f i) [ none ↦ new_desired g v | some session ↦ desired_of g v session ]
  ]

  baseline_own :
      (admin : AdminState F) (sessions : Map (Session F)) (v : ℕ) (d : DesiredClientConfig F)
      → desired_client admin v ≡ some d
      → desired_baseline_for_user g admin sessions v ≡ d
  unfolding desired_baseline_for_user
  baseline_own admin sessions v d e = rw (e, desired_baseline_for_user) refl

  desired-admin_with :
      (limits : Limits F) (now : ℕ) (admin : AdminState F) (d : DesiredClientConfig F) (v : ℕ)
      → desired_client (admin_with g limits now admin d) v
        ≡ (if v == d.user_id then some d else desired_client admin v)
  unfolding desired_client
  desired-admin_with limits now admin d v = desired_client-upsert admin.clients d v

  admin-applied :
      (limits : Limits F) (saved : Bool) (now : ℕ) (state : Managed F) (d : DesiredClientConfig F)
      → (apply_desired_client g limits saved now state d).1.admin
        ≡ admin_with g limits now state.admin (tidy g limits d)
  unfolding apply_desired_client
  admin-applied limits true now state d = refl
  admin-applied limits false now state d = refl

  others-applied :
      (limits : Limits F) (saved : Bool) (now : ℕ) (state : Managed F) (d : DesiredClientConfig F)
      (v : ℕ)
      → (v == d.user_id) ≡ false
      → Map.get (apply_desired_client g limits saved now state d).1.server.sessions v
        ≡ Map.get state.server.sessions v
  unfolding apply_desired_client
  others-applied limits false now state d v h = refl
  others-applied limits true now state d v h =
      ap (λ sessions. Map.get sessions v)
        (push-SameCore
          (record state.server {
            sessions =
                apply_desired_to_live_session g limits now (tidy g limits d) state.server.sessions;
          })
          d.user_id).sessions
      ∙ session-applied limits now (tidy g limits d) state.server.sessions v h

  -- Once a configuration is applied, saved or not, it is its user's baseline; the baselines of others
  -- are as before.
  pub baseline-apply_desired_client :
      (limits : Limits F) (saved : Bool) (now : ℕ) (state : Managed F) (d : DesiredClientConfig F)
      (v : ℕ)
      → baseline_of g limits (apply_desired_client g limits saved now state d).1 v
        ≡ (if v == d.user_id then tidy g limits d else baseline_of g limits state v)
  baseline-apply_desired_client limits saved now state d v =
      let after = (apply_desired_client g limits saved now state d).1 in
      let entry = desired-admin_with limits now state.admin (tidy g limits d) v in
      elim (Bool-cases (v == d.user_id)) [
        | inl h ↦ rw h (
            baseline_own after.admin after.server.sessions v (tidy g limits d)
              (rw (admin-applied limits saved now state d) (entry ∙ rw h refl)))
        | inr h ↦ rw h (
            baseline_same state.admin after.admin state.server.sessions after.server.sessions v
              (rw (admin-applied limits saved now state d) (entry ∙ rw h refl))
              (others-applied limits saved now state d v h))
      ]
