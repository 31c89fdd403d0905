-- ===== src/Server/Config/Locked.antt =====
-- What is locked stays as it is.
use open_broadcast_intercom.Base.{
  ℕ, ◌≡◌, refl, ◌∙◌, sym, inl, inr, Bool, true, arith, ◌==◌, nat_eq, nat_beq_iff, Bool-cases, ok,
  err, ◌>>=◌, subst,
}
use open_broadcast_intercom.Control.{ClientLockoutPolicy}
use open_broadcast_intercom.Control.Same.{
  button_eq, list_eq, codec_eq, profile_eq, talk_mode_eq, bool_eq,
}
use open_broadcast_intercom.Server.Gains.{Gains}
use open_broadcast_intercom.Server.Config.Desired.{DesiredClientConfig, Limits}
use open_broadcast_intercom.Server.Config.Lockout.{Aspect, ensure_control_allowed}
use open_broadcast_intercom.Server.Config.Handle.{
  Managed, ConfigResponse, tidy, requested, prioritized, baseline_of, config_allowed, apply_config,
  apply_audio_codec, apply_talk_mode, apply_priority, unless_refused, allowed_for,
  apply_desired_client, ConfigMessage, set_config, set_codec, set_mode, set_priority,
  apply_config_message,
}
use open_broadcast_intercom.Server.Config.Store.{user_id-baseline, baseline-apply_desired_client}
use open_broadcast_intercom.Server.Config.Keeps.{
  KeepsIn, user_id-requested, config-Keeps, codec-Keeps, talk_mode-Keeps, priority-Keeps,
  Keeps-refl,
}

module _ (g : Gains) (limits : Limits g.F) where
  open g use {F}

  -- a request either is refused, and changes nothing, or asks for a configuration that keeps what is
  -- locked
  guarded-Keeps :
      (saved : Bool) (now : ℕ) (state : Managed F) (u : ℕ) (check : ConfigResponse)
      (d : DesiredClientConfig F)
      → d.user_id ≡ u
      → (check ≡ ok tt → KeepsIn g limits (baseline_of g limits state u) (tidy g limits d))
      → (v : ℕ)
      → KeepsIn g limits (baseline_of g limits state v) (
          baseline_of g limits
            (unless_refused g limits check state
              (apply_desired_client g limits saved now state d)).1
            v)
  guarded-Keeps saved now state u (err e) d same keeps v =
      Keeps-refl g limits (baseline_of g limits state v)
  guarded-Keeps saved now state u (ok _) d same keeps v =
      let applied = baseline-apply_desired_client g limits saved now state d v in
      elim (Bool-cases (v == d.user_id)) [
        | inl h ↦
            rw (applied, h)
              (subst (λ w. KeepsIn g limits (baseline_of g limits state w) (tidy g limits d))
                (sym ((nat_beq_iff v d.user_id).0 h ∙ same)) (keeps refl))
        | inr h ↦ rw (applied, h) (Keeps-refl g limits (baseline_of g limits state v))
      ]

  allowed :
      (state : Managed F) (u : ℕ) (may : ClientLockoutPolicy → Bool) (aspect : Aspect)
      → allowed_for g limits state u may aspect ≡ ok tt
      → may (baseline_of g limits state u).lockout ≡ true
  unfolding ensure_control_allowed
  allowed state u may aspect h =
      ground (arith, Bool-cases (may (baseline_of g limits state u).lockout))

  first_passed : (a : ConfigResponse) (b : ConfigResponse) → (a >>= (λ _. b)) ≡ ok tt → a ≡ ok tt
  first_passed (ok _) b h = refl
  first_passed (err e) b h = ground arith

  -- Whatever the users request of their configurations, and whether it can be saved or not: what is
  -- locked of a user's configuration stays as it is, and the lockout too. That is so channel by
  -- channel for the channels; volumes and the IFB may change to what compares as equal.
  pub requests_keep_locked :
      (saved : Bool) (now : ℕ) (state : Managed F) (message : ConfigMessage F) (v : ℕ)
      → KeepsIn g limits
          (baseline_of g limits state v)
          (baseline_of g limits (apply_config_message g limits saved now state message).1 v)
  unfolding apply_config_message apply_config apply_audio_codec apply_talk_mode apply_priority
      config_allowed
  requests_keep_locked saved now state (set_config r) v =
      let b = baseline_of g limits state r.user_id in
      guarded-Keeps saved now state r.user_id _ (requested g limits b r)
        (user_id-requested g limits b r
          ∙ user_id-baseline g state.admin state.server.sessions r.user_id)
        (λ h. config-Keeps g limits b r (first_passed _ _ h)) v
  requests_keep_locked saved now state (set_codec u c) v =
      let b = baseline_of g limits state u in
      guarded-Keeps saved now state u _ (record b { codec = c })
        (user_id-baseline g state.admin state.server.sessions u)
        (λ h.
          codec-Keeps g limits b c (allowed state u (λ p. p.allow_codec) _ (first_passed _ _ h)))
        v
  requests_keep_locked saved now state (set_mode u mode) v =
      let b = baseline_of g limits state u in
      guarded-Keeps saved now state u _ (record b { talk_mode = mode })
        (user_id-baseline g state.admin state.server.sessions u)
        (λ h. talk_mode-Keeps g limits b mode (allowed state u (λ p. p.allow_talk_mode) _ h)) v
  requests_keep_locked saved now state (set_priority u active) v =
      let b = baseline_of g limits state u in
      guarded-Keeps saved now state u _ (prioritized g limits b active)
        (user_id-baseline g state.admin state.server.sessions u)
        (λ h. priority-Keeps g limits b active (allowed state u (λ p. p.allow_priority) _ h)) v
