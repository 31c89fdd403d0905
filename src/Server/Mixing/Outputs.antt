-- ===== src/Server/Mixing/Outputs.antt =====
-- What a round of the mixer sends, and what it changes.
use open_broadcast_intercom.Base.{
  ℕ, ◌≡◌, refl, ◌∙◌, sym, ap, fun_ext, Option, none, some, List, [], ◌∷◌, arith, nat_eq, filter,
  length, Option-cases, inl, inr,
}
use open_broadcast_intercom.Base.Map.{Map}
use open_broadcast_intercom.Server.Gains.{Gains}
use open_broadcast_intercom.Server.State.{Session, RuntimeEmergency, session_audio_addr}
use open_broadcast_intercom.Server.Sources.{ActiveSourceFrame}
use open_broadcast_intercom.Server.Mixing.Listener.{Samples, Mix, Hearing}
use open_broadcast_intercom.Server.Mixing.Loop.{mix_sources}
use open_broadcast_intercom.Server.Mixing.Build.{
  MixerState, MixOutput, hearing, no_mix, round_of, output_of, output_unless_silent, mix_for,
  push_output, mix_all, build_mixes,
}
use open_broadcast_intercom.Server.Mixing.Heard.{
  round_for, frames_of, may_hear, heard_by, hears-may_hear, mix_sources-heard_by, count-heard_by,
}

module _ (g : Gains) {S : Type 0} (m : Samples g S) where
  open g use {F}

  -- the frames of a round that the listener hears
  abbrev pub heard :
      ℕ
      → Option (RuntimeEmergency F)
      → Map (Session F)
      → List (ActiveSourceFrame S)
      → ℕ
      → Session F
      → List (ActiveSourceFrame S)
  heard now emergency sessions frames l listener =
      filter (may_hear g m emergency sessions frames l listener) frames

  heard_by-heard :
      (now : ℕ) (emergency : Option (RuntimeEmergency F)) (sessions : Map (Session F))
      (frames : List (ActiveSourceFrame S)) (l : ℕ) (listener : Session F)
      → heard_by g m (hearing (round_for now emergency sessions frames) l listener) frames
        ≡ heard now emergency sessions frames l listener
  heard_by-heard now emergency sessions frames l listener =
      ap (λ test. filter test frames)
        (fun_ext (hears-may_hear g m now emergency sessions frames l listener))

  -- what the listener is sent: the mix of what it hears, unless that is nothing
  abbrev pub mix_of_heard :
      Hearing F → List (ActiveSourceFrame S) → ℕ → Session F → ℕ → Option (MixOutput S)
  mix_of_heard h [] l listener addr = none
  mix_of_heard h (frame ∷ frames) l listener addr =
      some (output_of g m l addr listener (mix_sources g m h (frame ∷ frames) (no_mix g.zero)))

  sent_or_silent :
      (h : Hearing F) (frames : List (ActiveSourceFrame S)) (l : ℕ) (listener : Session F)
      (addr : ℕ)
      → (mix_sources g m h frames (no_mix g.zero)).active_sources ≡ length frames
      → output_unless_silent g m l addr listener (mix_sources g m h frames (no_mix g.zero))
        ≡ mix_of_heard h frames l listener addr
  unfolding output_unless_silent
  sent_or_silent h [] l listener addr e = ground arith
  sent_or_silent h (frame ∷ frames) l listener addr e = ground arith

  unless_silent :
      (h : Hearing F) (frames : List (ActiveSourceFrame S)) (l : ℕ) (listener : Session F)
      (addr : ℕ)
      → output_unless_silent g m l addr listener (mix_sources g m h frames (no_mix g.zero))
        ≡ mix_of_heard h (heard_by g m h frames) l listener addr
  unfolding no_mix
  unless_silent h frames l listener addr =
      let mix = no_mix g.zero in
      let same = mix_sources-heard_by g m h frames mix in
      rw same (
        sent_or_silent h (heard_by g m h frames) l listener addr (
          ap (λ (x : Mix F). x.active_sources) (sym same)
          ∙ count-heard_by g m h frames mix
          ∙ omega arith))

  -- What a listener is sent who hears these frames.
  abbrev pub sent_to :
      ℕ
      → Option (RuntimeEmergency F)
      → Map (Session F)
      → List (ActiveSourceFrame S)
      → ℕ
      → Session F
      → Option (MixOutput S)
  sent_to now emergency sessions frames l listener = elim (session_audio_addr listener now) [
    | none ↦ none
    | some addr ↦
        mix_of_heard (hearing (round_for now emergency sessions frames) l listener)
          (heard now emergency sessions frames l listener) l listener addr
  ]

  mix_for-sent_to :
      (now : ℕ) (emergency : Option (RuntimeEmergency F)) (sessions : Map (Session F))
      (frames : List (ActiveSourceFrame S)) (l : ℕ) (listener : Session F)
      → (mix_for g m (round_for now emergency sessions frames) l listener).0
        ≡ sent_to now emergency sessions frames l listener
  unfolding mix_for
  mix_for-sent_to now emergency sessions frames l listener =
      let h = hearing (round_for now emergency sessions frames) l listener in
      elim (Option-cases (session_audio_addr listener now)) [
        | inl e ↦ rw (e, mix_for, sent_to) refl
        | inr (addr, e) ↦
            rw (e, mix_for, sent_to)
              (unless_silent h frames l listener addr
                ∙ ap (λ hs. mix_of_heard h hs l listener addr)
                    (heard_by-heard now emergency sessions frames l listener))
      ]

  -- the outputs for these listeners
  abbrev pub all_sent :
      ℕ
      → Option (RuntimeEmergency F)
      → Map (Session F)
      → List (ActiveSourceFrame S)
      → Map (Session F)
      → List (MixOutput S)
  all_sent now emergency sessions frames [] = []
  all_sent now emergency sessions frames ((l, listener) ∷ listeners) =
      push_output (sent_to now emergency sessions frames l listener)
        (all_sent now emergency sessions frames listeners)

  mix_all-all_sent :
      (now : ℕ) (emergency : Option (RuntimeEmergency F)) (sessions : Map (Session F))
      (frames : List (ActiveSourceFrame S)) (listeners : Map (Session F))
      → (mix_all g m (round_for now emergency sessions frames) listeners).0
        ≡ all_sent now emergency sessions frames listeners
  unfolding mix_all
  mix_all-all_sent now emergency sessions frames [] = refl
  mix_all-all_sent now emergency sessions frames ((l, listener) ∷ listeners) = λ i.
      push_output (mix_for-sent_to now emergency sessions frames l listener i)
        (mix_all-all_sent now emergency sessions frames listeners i)

  -- A round sends each client with a live audio address the mix of exactly the frames that the
  -- client hears, and nothing if there is none. A client hears a frame of another user that has all
  -- its samples, if it goes to a channel that the client listens to, or to the client, and its sender
  -- may send there; or if it goes to all, from the source of an emergency that the client receives.
  -- But while the client receives an emergency that mutes the rest, or whose gain for the rest is
  -- zero, it hears only frames to all.
  pub build_mixes_exact :
      (state : MixerState F S) (now : ℕ)
      → (build_mixes g m state now).0
        ≡ all_sent now state.emergency state.sessions (frames_of state now) state.sessions
  unfolding build_mixes round_of
  build_mixes_exact state now =
      mix_all-all_sent now state.emergency state.sessions (frames_of state now) state.sessions
