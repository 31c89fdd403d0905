-- ===== src/Server/Transcription.antt =====
-- server/src/lib.rs: live transcription. Voiced frames are gathered into chunks, which become jobs in
-- a short queue. Resampling and the meter work on floating-point samples: a frame comes here as its
-- samples at 16 kHz and whether its level reaches `LIVE_TRANSCRIPTION_RMS_THRESHOLD`. A sample is of
-- a type `A`, and the counters of 64 bits are numbers.
pub mod Chunks
pub mod Frames
pub mod Queue
pub mod Jobs
use open_broadcast_intercom.Base.{
  ℕ, zero, suc, ◌+◌, ◌*◌, ◌/◌, ◌-◌, Bool, true, false, not, ◌&&◌, ◌||◌, Option, none, some, List,
  [], ◌∷◌, ◌++◌, ltb, leb, ◌==◌, nat_eq, if◌then◌else◌, length, drop, contains,
}
use open_broadcast_intercom.Base.Map
use open_broadcast_intercom.Base.Map.{Map}
use open_broadcast_intercom.Wire.Types.{AudioTarget, samples_per_frame, frame_ms}
use open_broadcast_intercom.Control.{target_eq}

pub data LiveTranscriptionMode : Type 0 where
  fast balanced reliable : LiveTranscriptionMode

pub record LiveTranscriptionModeConfig : Type 0 where
  pub silence_frames : ℕ
  pub max_frames : ℕ
  pub overlap_frames : ℕ
  pub min_speech_frames : ℕ
  pub stale_job_ms : ℕ

-- `LiveTranscriptionMode::config`
abbrev pub mode_config : LiveTranscriptionMode → LiveTranscriptionModeConfig
mode_config fast = record {
  silence_frames = 40;
  max_frames = 400;
  overlap_frames = 30;
  min_speech_frames = 15;
  stale_job_ms = 10_000;
}
mode_config balanced = record {
  silence_frames = 70;
  max_frames = 600;
  overlap_frames = 50;
  min_speech_frames = 20;
  stale_job_ms = 20_000;
}
mode_config reliable = record {
  silence_frames = 160;
  max_frames = 1_800;
  overlap_frames = 160;
  min_speech_frames = 30;
  stale_job_ms = 90_000;
}

pub record LiveTranscriptChunker (A : Type 0) : Type 0 where
  pub buffer : List A
  pub contexts : List AudioTarget
  pub started_at_ms : Option ℕ
  pub voiced_frames : ℕ
  pub silence_frames : ℕ
  pub total_frames : ℕ

pub record LiveTranscriptJob (A : Type 0) : Type 0 where
  pub user_id : ℕ
  pub started_at_ms : ℕ
  pub ended_at_ms : ℕ
  pub contexts : List AudioTarget
  pub samples_16khz : List A

-- `u64::saturating_add`
abbrev saturating_add : ℕ → ℕ → ℕ
saturating_add a b =
    if ltb (a + b) 18_446_744_073_709_551_616 then a + b else 18_446_744_073_709_551_615

abbrev pub minimum : ℕ → ℕ → ℕ
minimum a b = if leb a b then a else b

-- the contexts with one more target, and without the eight oldest when there are more than 16
abbrev pub with_context : List AudioTarget → AudioTarget → List AudioTarget
with_context contexts target =
    let added = if not (contains contexts target) then contexts ++ target ∷ [] else contexts in
    if ltb 16 (length added) then drop 8 added else added

module _ {A : Type 0} where
  -- `LiveTranscriptChunker::clear`
  abbrev pub cleared : LiveTranscriptChunker A
  cleared = record {
    buffer = [];
    contexts = [];
    started_at_ms = none;
    voiced_frames = 0;
    silence_frames = 0;
    total_frames = 0;
  }

  -- the job that `finalize` makes; without a start, it starts `now`
  abbrev pub job_of : LiveTranscriptChunker A → ℕ → ℕ → LiveTranscriptJob A
  job_of c user_id now =
      let started : ℕ = elim c.started_at_ms [ none ↦ now | some started_at_ms ↦ started_at_ms ] in
      record {
        user_id = user_id;
        started_at_ms = started;
        ended_at_ms = saturating_add started (c.total_frames * frame_ms);
        contexts = c.contexts;
        samples_16khz = c.buffer;
      }

  -- what `finalize` keeps of a chunk that became too long
  abbrev pub overlapping :
      LiveTranscriptChunker A → ℕ → LiveTranscriptionModeConfig → LiveTranscriptChunker A
  overlapping c ended_at_ms mode =
      let keep = minimum (mode.overlap_frames * samples_per_frame) (length c.buffer) in
      record {
        buffer = drop (length c.buffer - keep) c.buffer;
        contexts = c.contexts;
        started_at_ms = some (ended_at_ms - mode.overlap_frames * frame_ms);
        voiced_frames = minimum mode.overlap_frames c.total_frames;
        silence_frames = 0;
        total_frames = minimum mode.overlap_frames c.total_frames;
      }

  -- `LiveTranscriptChunker::finalize`
  unfoldable pub finalize :
      LiveTranscriptChunker A
      → ℕ
      → Bool
      → LiveTranscriptionModeConfig
      → ℕ
      → Option (LiveTranscriptJob A) × LiveTranscriptChunker A
  finalize c user_id keep_overlap mode now =
      if ltb c.voiced_frames mode.min_speech_frames then (none, cleared) else (
        some (job_of c user_id now),
        (if keep_overlap then overlapping c (job_of c user_id now).ended_at_ms mode else cleared),
      )

  -- `LiveTranscriptChunker::flush`
  unfoldable pub flush :
      LiveTranscriptChunker A
      → ℕ
      → LiveTranscriptionModeConfig
      → ℕ
      → Option (LiveTranscriptJob A) × LiveTranscriptChunker A
  flush c user_id mode now =
      if c.voiced_frames == 0 then (none, cleared) else finalize c user_id false mode now

  abbrev pub is_empty_buffer : List A → Bool
  is_empty_buffer [] = true
  is_empty_buffer (x ∷ xs) = false

  -- the chunker once a frame is added and counted
  abbrev pub with_frame :
      LiveTranscriptChunker A → AudioTarget → List A → Bool → ℕ → LiveTranscriptChunker A
  with_frame c target samples voiced now = record {
    buffer = c.buffer ++ samples;
    contexts = with_context c.contexts target;
    started_at_ms = elim c.started_at_ms [ none ↦ some now | some started ↦ some started ];
    voiced_frames = if voiced then c.voiced_frames + 1 else c.voiced_frames;
    silence_frames =
        if voiced
        then 0
        else if ltb 0 c.voiced_frames
        then c.silence_frames + 1
        else c.silence_frames;
    total_frames = c.total_frames + 1;
  }

  -- the end of `push_frame`: a chunk ends after silence, or when it is long
  unfoldable pub end_chunk :
      LiveTranscriptChunker A
      → ℕ
      → LiveTranscriptionModeConfig
      → ℕ
      → Option (LiveTranscriptJob A) × LiveTranscriptChunker A
  unfolding finalize
  end_chunk c user_id mode now =
      if c.voiced_frames == 0
      then (none, c)
      else if leb mode.silence_frames c.silence_frames || leb mode.max_frames c.total_frames
      then finalize c user_id (leb mode.max_frames c.total_frames) mode now
      else (none, c)

  -- `LiveTranscriptChunker::push_frame`
  unfoldable pub push_chunk :
      LiveTranscriptChunker A
      → ℕ
      → AudioTarget
      → List A
      → Bool
      → LiveTranscriptionModeConfig
      → ℕ
      → Option (LiveTranscriptJob A) × LiveTranscriptChunker A
  push_chunk c user_id target samples voiced mode now =
      if is_empty_buffer c.buffer && not voiced
      then (none, c)
      else end_chunk (with_frame c target samples voiced now) user_id mode now

  abbrev pub frames_in_live_job : LiveTranscriptJob A → ℕ
  frames_in_live_job job = length job.samples_16khz / samples_per_frame

  abbrev pub is_stale : ℕ → ℕ → LiveTranscriptJob A → Bool
  is_stale stale_job_ms now_ms job = ltb stale_job_ms (now_ms - job.ended_at_ms)
