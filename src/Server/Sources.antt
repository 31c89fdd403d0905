-- ===== src/Server/Sources.antt =====
-- server/src/lib.rs: where the mixer takes frames from: the short queue of each client, and sources
-- of the server itself, which play a list of frames; and the sequence numbers of what is sent.
pub mod Order
use open_broadcast_intercom.Base.{
  ℕ, ◌+◌, ◌-◌, ◌%◌, Bool, true, false, Option, none, some, List, [], ◌∷◌, ◌++◌, ◌==◌, nat_eq, leb,
  if◌then◌else◌, length, get_elem?, drop,
}
use open_broadcast_intercom.Base.Map
use open_broadcast_intercom.Base.Map.{Map}
use open_broadcast_intercom.Wire.Types.{AudioTarget}

abbrev pub max_source_queue_frames : ℕ
max_source_queue_frames = 6

-- a frame with samples of type `A`
pub record QueuedFrame (A : Type 0) : Type 0 where
  pub target : AudioTarget
  pub samples : List A
  pub priority : Bool
  pub duck : Bool

pub record SourceQueue (A : Type 0) : Type 0 where
  pub frames : List (QueuedFrame A)
  pub last_seen : ℕ

pub record VirtualAudioSource (A : Type 0) : Type 0 where
  pub user_id : ℕ
  pub target : AudioTarget
  pub frames : List (List A)
  pub frame_index : ℕ
  pub priority : Bool
  pub duck : Bool

pub record ActiveSourceFrame (A : Type 0) : Type 0 where
  pub user_id : ℕ
  pub target : AudioTarget
  pub samples : List A
  pub priority : Bool
  pub duck : Bool

module _ {A : Type 0} where
  -- `SourceQueue::push_with_options`, with whether a frame was dropped
  unfoldable pub push_with_options :
      SourceQueue A → ℕ → AudioTarget → List A → Bool → Bool → Bool × SourceQueue A
  push_with_options queue now target samples priority duck =
      let dropped = length queue.frames == max_source_queue_frames in
      let frame : QueuedFrame A = record {
        target = target;
        samples = samples;
        priority = priority;
        duck = duck;
      } in
      (
        dropped,
        record {
          frames = (if dropped then drop 1 queue.frames else queue.frames) ++ frame ∷ [];
          last_seen = now;
        },
      )

  -- `SourceQueue::pop`
  unfoldable pub pop_source : SourceQueue A → Option (QueuedFrame A) × SourceQueue A
  pop_source queue = elim queue.frames [
    | [] ↦ (none, queue)
    | frame ∷ frames ↦ (some frame, record queue { frames = frames })
  ]

  -- `VirtualAudioSource::new`
  unfoldable pub new_source : ℕ → AudioTarget → List (List A) → Bool → Bool → VirtualAudioSource A
  new_source user_id target frames priority duck = record {
    user_id = user_id;
    target = target;
    frames = frames;
    frame_index = 0;
    priority = priority;
    duck = duck;
  }

  -- `VirtualAudioSource::next_frame`
  unfoldable pub next_frame :
      VirtualAudioSource A → Option (ActiveSourceFrame A) × VirtualAudioSource A
  next_frame source = elim (get_elem? source.frames source.frame_index) [
    | none ↦ (none, source)
    | some samples ↦ (
      some record {
        user_id = source.user_id;
        target = source.target;
        samples = samples;
        priority = source.priority;
        duck = source.duck;
      },
      record source { frame_index = source.frame_index + 1 },
    )
  ]

  -- `VirtualAudioSource::is_finished`
  unfoldable pub is_finished : VirtualAudioSource A → Bool
  is_finished source = leb (length source.frames) source.frame_index

-- `next_output_seq`: the number, and the map afterwards
unfoldable pub next_output_seq : Map ℕ → ℕ → ℕ × Map ℕ
next_output_seq output_seq user_id =
    let current : ℕ = elim (Map.get output_seq user_id) [ none ↦ 0 | some seq ↦ seq ] in
    (current, Map.insert output_seq user_id ((current + 1) % 65_536))
