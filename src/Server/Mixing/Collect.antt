-- ===== src/Server/Mixing/Collect.antt =====
-- The frames of one round of the mixer: the first of each client's queue that is not too old, and
-- the next of each source of the server itself.
use open_broadcast_intercom.Base.{
  ℕ, ◌+◌, ◌-◌, Bool, Option, none, some, List, [], ◌∷◌, leb, if◌then◌else◌,
}
use open_broadcast_intercom.Base.Map.{Map}
use open_broadcast_intercom.Server.Sources.{
  SourceQueue, VirtualAudioSource, ActiveSourceFrame, QueuedFrame, pop_source, next_frame,
  is_finished,
}

-- `ACTIVE_SOURCE_WINDOW`, in milliseconds
abbrev pub active_source_window : ℕ
active_source_window = 80

module _ {S : Type 0} where
  -- the queue received a frame within the window
  unfoldable pub is_active : ℕ → SourceQueue S → Bool
  is_active now queue = leb (now - queue.last_seen) active_source_window

  -- `sources.retain`, with the number of queues that expired
  unfoldable pub retain_active : ℕ → Map (SourceQueue S) → ℕ × Map (SourceQueue S)
  unfolding is_active
  retain_active now [] = (0, [])
  retain_active now ((user_id, queue) ∷ sources) =
      let (expired, rest) = retain_active now sources in
      if is_active now queue then (expired, (user_id, queue) ∷ rest) else (expired + 1, rest)

  abbrev pub queued_frame : ℕ → QueuedFrame S → ActiveSourceFrame S
  queued_frame user_id frame = record {
    user_id = user_id;
    target = frame.target;
    samples = frame.samples;
    priority = frame.priority;
    duck = frame.duck;
  }

  abbrev pub push_some :
      Option (ActiveSourceFrame S) → List (ActiveSourceFrame S) → List (ActiveSourceFrame S)
  push_some none frames = frames
  push_some (some frame) frames = frame ∷ frames

  -- `for (&user_id, source) in sources.iter_mut()`
  unfoldable pub pop_all : Map (SourceQueue S) → List (ActiveSourceFrame S) × Map (SourceQueue S)
  unfolding pop_source
  pop_all [] = ([], [])
  pop_all ((user_id, queue) ∷ sources) =
      let (frames, rest) = pop_all sources in
      let (popped, after) = pop_source queue in
      elim popped [
        | none ↦ (frames, (user_id, after) ∷ rest)
        | some frame ↦ (queued_frame user_id frame ∷ frames, (user_id, after) ∷ rest)
      ]

  -- `for source in virtual_sources.iter_mut()`, and the `retain` of what is not finished
  unfoldable pub play_all :
      List (VirtualAudioSource S) → List (ActiveSourceFrame S) × List (VirtualAudioSource S)
  unfolding next_frame is_finished
  play_all [] = ([], [])
  play_all (source ∷ sources) =
      let (frames, rest) = play_all sources in
      let (played, after) = next_frame source in
      (push_some played frames, if is_finished after then rest else after ∷ rest)
