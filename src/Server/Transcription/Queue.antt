-- ===== src/Server/Transcription/Queue.antt =====
-- server/src/lib.rs: the queue of jobs of live transcription, and what a frame that arrives does.
use open_broadcast_intercom.Base.{
  ℕ, ◌+◌, Bool, true, false, not, ◌&&◌, Option, none, some, List, [], ◌∷◌, ◌++◌, String, ltb, leb,
  nat_eq, if◌then◌else◌, length, contains,
}
use open_broadcast_intercom.Base.Map
use open_broadcast_intercom.Base.Map.{Map}
use open_broadcast_intercom.Wire.Types.{AudioTarget}
use open_broadcast_intercom.Server.Transcription.{
  LiveTranscriptionMode, mode_config, LiveTranscriptChunker, LiveTranscriptJob, cleared, push_chunk,
  frames_in_live_job, is_stale,
}

abbrev pub queue_limit : ℕ
queue_limit = 4

pub record LiveTranscriptionUserRuntime (A : Type 0) : Type 0 where
  pub chunker : LiveTranscriptChunker A
  pub pending : List (LiveTranscriptJob A)
  pub worker_running : Bool
  pub queued_jobs : ℕ
  pub dropped_jobs : ℕ
  pub dropped_frames : ℕ
  pub stale_jobs : ℕ
  pub stale_frames : ℕ
  pub completed_segments : ℕ
  pub last_contexts : List AudioTarget
  pub last_transcript_text : Option String

-- The fields of `LiveTranscriptionState` that a frame meets; an error is the user whose queue was
-- full.
pub record LiveTranscriptionState (A : Type 0) : Type 0 where
  pub active : Bool
  pub users : Option (List ℕ)
  pub mode : LiveTranscriptionMode
  pub stale_job_ms : ℕ
  pub per_user : Map (LiveTranscriptionUserRuntime A)
  pub last_error : Option ℕ

module _ {A : Type 0} where
  abbrev pub idle : LiveTranscriptionUserRuntime A
  idle = record {
    chunker = cleared;
    pending = [];
    worker_running = false;
    queued_jobs = 0;
    dropped_jobs = 0;
    dropped_frames = 0;
    stale_jobs = 0;
    stale_frames = 0;
    completed_segments = 0;
    last_contexts = [];
    last_transcript_text = none;
  }

  abbrev pub count_stale :
      LiveTranscriptJob A → LiveTranscriptionUserRuntime A → LiveTranscriptionUserRuntime A
  count_stale job runtime = record runtime {
    stale_jobs = runtime.stale_jobs + 1;
    stale_frames = runtime.stale_frames + frames_in_live_job job;
  }

  -- the loop of `drop_stale_live_transcription_jobs` over the pending jobs, with those that are kept
  unfoldable pub sift :
      ℕ
      → ℕ
      → List (LiveTranscriptJob A)
      → List (LiveTranscriptJob A)
      → LiveTranscriptionUserRuntime A
      → LiveTranscriptionUserRuntime A
  sift stale_job_ms now_ms [] kept runtime = record runtime {
    pending = kept;
    queued_jobs = length kept;
  }
  sift stale_job_ms now_ms (job ∷ jobs) kept runtime =
      let counted = sift stale_job_ms now_ms jobs kept (count_stale job runtime) in
      let fresh = sift stale_job_ms now_ms jobs (kept ++ job ∷ []) runtime in
      if is_stale stale_job_ms now_ms job then counted else fresh

  -- `drop_stale_live_transcription_jobs`
  unfoldable pub drop_stale_live_transcription_jobs :
      LiveTranscriptionUserRuntime A → ℕ → ℕ → LiveTranscriptionUserRuntime A
  drop_stale_live_transcription_jobs runtime stale_job_ms now_ms =
      sift stale_job_ms now_ms runtime.pending [] runtime

  -- the loop of `pop_next_live_transcription_job`
  unfoldable pub pop_fresh :
      ℕ
      → ℕ
      → List (LiveTranscriptJob A)
      → LiveTranscriptionUserRuntime A
      → Option (LiveTranscriptJob A) × LiveTranscriptionUserRuntime A
  pop_fresh stale_job_ms now_ms [] runtime =
      (none, record runtime { pending = []; queued_jobs = 0 })
  pop_fresh stale_job_ms now_ms (job ∷ jobs) runtime =
      let rest = pop_fresh stale_job_ms now_ms jobs (count_stale job runtime) in
      if is_stale stale_job_ms now_ms job
      then rest
      else (some job, record runtime { pending = jobs; queued_jobs = length jobs })

  -- `pop_next_live_transcription_job`
  unfoldable pub pop_next_live_transcription_job :
      LiveTranscriptionUserRuntime A
      → ℕ
      → ℕ
      → Option (LiveTranscriptJob A) × LiveTranscriptionUserRuntime A
  pop_next_live_transcription_job runtime stale_job_ms now_ms =
      pop_fresh stale_job_ms now_ms runtime.pending runtime

  -- a job that a frame completed: queued, with whether a worker is to be started, or dropped
  unfoldable pub enqueue_job :
      LiveTranscriptJob A → LiveTranscriptionUserRuntime A → Bool × LiveTranscriptionUserRuntime A
  enqueue_job job runtime =
      if leb queue_limit (length runtime.pending)
      then (
        false,
        record runtime {
          dropped_jobs = runtime.dropped_jobs + 1;
          dropped_frames = runtime.dropped_frames + frames_in_live_job job;
        },
      )
      else (
        not runtime.worker_running,
        record runtime {
          pending = runtime.pending ++ job ∷ [];
          queued_jobs = length runtime.pending + 1;
          worker_running = true;
        },
      )

  -- what `transcribe_ingest_frame` does for one user; the times are those that it reads in turn
  unfoldable pub ingest_frame :
      LiveTranscriptionUserRuntime A
      → ℕ
      → AudioTarget
      → List A
      → Bool
      → LiveTranscriptionMode
      → ℕ
      → ℕ
      → ℕ
      → ℕ
      → Bool × LiveTranscriptionUserRuntime A
  ingest_frame runtime user_id target samples voiced mode stale_job_ms first second third =
      let sifted = drop_stale_live_transcription_jobs runtime stale_job_ms first in
      let (job, chunker) =
        push_chunk sifted.chunker user_id target samples voiced (mode_config mode) second in
      let pushed : LiveTranscriptionUserRuntime A = record sifted { chunker = chunker } in
      elim job [
        | none ↦ (false, pushed)
        | some job ↦ enqueue_job job (
            drop_stale_live_transcription_jobs (record pushed { last_contexts = job.contexts })
              stale_job_ms third)
      ]

  -- the users whose frames are transcribed
  abbrev pub transcribes : LiveTranscriptionState A → ℕ → Bool
  transcribes state user_id =
      state.active && elim state.users [ none ↦ true | some users ↦ contains users user_id ]

  -- `transcribe_ingest_frame`, with whether it starts a worker
  unfoldable pub transcribe_ingest_frame :
      LiveTranscriptionState A
      → ℕ
      → AudioTarget
      → List A
      → Bool
      → ℕ
      → ℕ
      → ℕ
      → Bool × LiveTranscriptionState A
  transcribe_ingest_frame state user_id target samples voiced first second third =
      if not (transcribes state user_id)
      then (false, state)
      else (let runtime : LiveTranscriptionUserRuntime A = elim (Map.get state.per_user user_id) [
        | none ↦ idle
        | some runtime ↦ runtime
      ] in
          let (spawns, ingested) =
            ingest_frame runtime user_id target samples voiced state.mode state.stale_job_ms first
              second third in
          (
            spawns,
            record state {
              per_user = Map.insert state.per_user user_id ingested;
              last_error =
                  if ltb runtime.dropped_jobs ingested.dropped_jobs
                  then some user_id
                  else state.last_error;
            },
          ))
