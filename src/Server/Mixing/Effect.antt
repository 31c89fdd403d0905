-- ===== src/Server/Mixing/Effect.antt =====
-- What a round of the mixer leaves behind.
use open_broadcast_intercom.Base.{
  ℕ, ◌≡◌, refl, ◌∙◌, ap, Bool, not, Option, none, some, List, [], ◌∷◌, arith, nat_eq, if◌then◌else◌,
  filter, map, drop, Option-cases, inl, inr,
}
use open_broadcast_intercom.Base.Map.{Map}
use open_broadcast_intercom.Server.Gains.{Gains}
use open_broadcast_intercom.Server.State.{Session, RuntimeEmergency, session_audio_addr}
use open_broadcast_intercom.Server.Sources.{
  ActiveSourceFrame, QueuedFrame, SourceQueue, VirtualAudioSource, pop_source, next_frame,
  is_finished,
}
use open_broadcast_intercom.Server.Mixing.Collect.{is_active, retain_active, pop_all, play_all}
use open_broadcast_intercom.Server.Mixing.Senders.{sender_routes}
use open_broadcast_intercom.Server.Mixing.Listener.{Samples, ifb_now}
use open_broadcast_intercom.Server.Mixing.Build.{
  MixerState, hearing, with_ifb_status, mix_for, mix_all, round_of, build_mixes,
}
use open_broadcast_intercom.Server.Mixing.Heard.{round_for, frames_of}

module _ {S : Type 0} where
  -- a queue without its first frame
  abbrev pub popped : ℕ × SourceQueue S → ℕ × SourceQueue S
  popped (u, queue) = (u, record queue { frames = drop 1 queue.frames })

  abbrev pub live : ℕ → ℕ × SourceQueue S → Bool
  live now (u, queue) = is_active now queue

  -- the sources that are left, each one frame on
  abbrev pub advanced : List (VirtualAudioSource S) → List (VirtualAudioSource S)
  advanced sources =
      filter (λ (source : VirtualAudioSource S). not (is_finished source))
        (map (λ (source : VirtualAudioSource S). (next_frame source).1) sources)

  pop_all-popped : (sources : Map (SourceQueue S)) → (pop_all sources).1 ≡ map popped sources
  unfolding pop_all pop_source
  pop_all-popped [] = refl
  pop_all-popped ((u, queue) ∷ sources) = go queue.frames (pop_all-popped sources)
    where
      go :
          (frames : List (QueuedFrame S))
          → (pop_all sources).1 ≡ map popped sources
          → let q : SourceQueue S = record { frames = frames; last_seen = queue.last_seen } in
            (pop_all ((u, q) ∷ sources)).1 ≡ map popped ((u, q) ∷ sources)
      go [] rest = ap (λ qs. (u, record { frames = []; last_seen = queue.last_seen }) ∷ qs) rest
      go (frame ∷ frames) rest =
          ap (λ qs. (u, record { frames = frames; last_seen = queue.last_seen }) ∷ qs) rest

  retain_active-live :
      (now : ℕ) (sources : Map (SourceQueue S))
      → (retain_active now sources).1 ≡ filter (live now) sources
  unfolding retain_active filter
  retain_active-live now [] = refl
  retain_active-live now ((u, queue) ∷ sources) = ground (arith, retain_active-live now sources)

  play_all-advanced :
      (sources : List (VirtualAudioSource S)) → (play_all sources).1 ≡ advanced sources
  unfolding play_all filter
  play_all-advanced [] = refl
  play_all-advanced (source ∷ sources) = ground (arith, play_all-advanced sources)

module _ (g : Gains) {S : Type 0} (m : Samples g S) where
  open g use {F}

  -- the listener with the status of its interruption, if there is an address to send to
  abbrev pub informed :
      ℕ → Map (Session F) → List (ActiveSourceFrame S) → ℕ × Session F → ℕ × Session F
  informed now sessions frames (l, listener) =
      let active = ifb_now l listener (sender_routes sessions frames) frames in
      (
        l,
        elim (session_audio_addr listener now) [
          | none ↦ listener
          | some _ ↦ record listener {
            ifb_status = record {
              active = active;
              duck_gain = if active then listener.ifb.duck_gain else g.one;
            };
          }
        ],
      )

  mix_for-informed :
      (now : ℕ) (emergency : Option (RuntimeEmergency F)) (sessions : Map (Session F))
      (frames : List (ActiveSourceFrame S)) (l : ℕ) (listener : Session F)
      → (l, (mix_for g m (round_for now emergency sessions frames) l listener).1)
        ≡ informed now sessions frames (l, listener)
  unfolding mix_for with_ifb_status hearing
  mix_for-informed now emergency sessions frames l listener =
      elim (Option-cases (session_audio_addr listener now)) [
        | inl e ↦ rw (e, mix_for, informed) refl
        | inr (addr, e) ↦ rw (e, mix_for, informed) refl
      ]

  mix_all-informed :
      (now : ℕ) (emergency : Option (RuntimeEmergency F)) (sessions : Map (Session F))
      (frames : List (ActiveSourceFrame S)) (listeners : Map (Session F))
      → (mix_all g m (round_for now emergency sessions frames) listeners).1
        ≡ map (informed now sessions frames) listeners
  unfolding mix_all
  mix_all-informed now emergency sessions frames [] = refl
  mix_all-informed now emergency sessions frames ((l, listener) ∷ listeners) = λ i.
      mix_for-informed now emergency sessions frames l listener i
      ∷ mix_all-informed now emergency sessions frames listeners i

  -- A round changes of a session only the status of its interruption, and that only for a client
  -- with a live audio address. It drops the queues without a frame in the last 80 milliseconds, takes
  -- the first frame off each other queue, takes each source of the server one frame on, and drops
  -- those that are finished. It leaves the emergency as it is.
  pub build_mixes_effect :
      (state : MixerState F S) (now : ℕ)
      → let after = (build_mixes g m state now).1 in
        (after.sessions ≡ map (informed now state.sessions (frames_of state now)) state.sessions)
        × (after.sources ≡ map popped (filter (live now) state.sources))
        × (after.virtual_sources ≡ advanced state.virtual_sources)
        × (after.emergency ≡ state.emergency)
  unfolding build_mixes round_of
  build_mixes_effect state now = (
    mix_all-informed now state.emergency state.sessions (frames_of state now) state.sessions,
    pop_all-popped (retain_active now state.sources).1
        ∙ ap (map popped) (retain_active-live now state.sources),
    play_all-advanced state.virtual_sources,
    refl,
  )
