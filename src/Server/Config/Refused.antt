-- ===== src/Server/Config/Refused.antt =====
-- What a request that is refused leaves behind.
use open_broadcast_intercom.Base.{ℕ, ◌≡◌, refl, ◌⊎◌, inl, inr, Bool, true, false, arith, ok, err}
use open_broadcast_intercom.Server.Gains.{Gains}
use open_broadcast_intercom.Server.Config.Desired.{DesiredClientConfig, Limits}
use open_broadcast_intercom.Server.Config.Lockout.{ConfigError, save_failed}
use open_broadcast_intercom.Server.Config.Handle.{
  Managed, ConfigResponse, ConfigMessage, set_config, set_codec, set_mode, set_priority,
  unless_refused, apply_desired_client, apply_config, apply_audio_codec, apply_talk_mode,
  apply_priority, apply_config_message,
}

module _ (g : Gains) (limits : Limits g.F) where
  open g use {F}

  -- the sessions and all that goes with them are as before, and the admin state too, unless the
  -- request was refused for want of a save
  abbrev pub Refuses : Bool → Managed F → ConfigError → Managed F → Type 0
  Refuses saved state e after =
      (after.server ≡ state.server)
      × ((after.admin ≡ state.admin) ⊎ ((e ≡ save_failed) × (saved ≡ false)))

  applied-Refuses :
      (saved : Bool) (now : ℕ) (state : Managed F) (d : DesiredClientConfig F) (e : ConfigError)
      → (apply_desired_client g limits saved now state d).0 ≡ err e
      → Refuses saved state e (apply_desired_client g limits saved now state d).1
  unfolding apply_desired_client
  applied-Refuses true now state d e h = ground arith
  applied-Refuses false now state d e h = (refl, inr (ground arith, refl))

  guarded-Refuses :
      (saved : Bool) (now : ℕ) (state : Managed F) (check : ConfigResponse)
      (d : DesiredClientConfig F) (e : ConfigError)
      → let result =
          unless_refused g limits check state (apply_desired_client g limits saved now state d) in
        result.0 ≡ err e → Refuses saved state e result.1
  guarded-Refuses saved now state (err x) d e h = (refl, inl refl)
  guarded-Refuses saved now state (ok _) d e h = applied-Refuses saved now state d e h

  -- A request about a configuration that is answered with an error changes no session, emergency or
  -- alert and pushes nothing. It leaves the admin state as it is too, unless the error is that the
  -- admin state could not be saved.
  pub refused_unchanged :
      (saved : Bool) (now : ℕ) (state : Managed F) (message : ConfigMessage F) (e : ConfigError)
      → (apply_config_message g limits saved now state message).0 ≡ err e
      → Refuses saved state e (apply_config_message g limits saved now state message).1
  unfolding apply_config_message apply_config apply_audio_codec apply_talk_mode apply_priority
  refused_unchanged saved now state (set_config r) e h = guarded-Refuses saved now state _ _ e h
  refused_unchanged saved now state (set_codec u c) e h = guarded-Refuses saved now state _ _ e h
  refused_unchanged saved now state (set_mode u mode) e h = guarded-Refuses saved now state _ _ e h
  refused_unchanged saved now state (set_priority u a) e h = guarded-Refuses saved now state _ _ e h
