-- ===== src/Tests/Transcribing.antt =====
-- Live transcription.
use open_broadcast_intercom.Base.{
  ℕ, ◌+◌, ◌≡◌, refl, ◌⊎◌, true, false, none, some, List, [], ◌∷◌, ◌++◌, arith, length, filter, any,
}
use open_broadcast_intercom.Wire.Types.{channel}
use open_broadcast_intercom.Server.Transcription.{
  fast, mode_config, LiveTranscriptChunker, LiveTranscriptJob, push_chunk,
}
use open_broadcast_intercom.Server.Transcription.Chunks.{IsChunk, modes-IsMode, push_chunk-IsChunk}
use open_broadcast_intercom.Server.Transcription.Frames.{AfterFrame, push_chunk_job}
use open_broadcast_intercom.Server.Transcription.Queue.{
  LiveTranscriptionUserRuntime, idle, drop_stale_live_transcription_jobs,
  pop_next_live_transcription_job, ingest_frame,
}
use open_broadcast_intercom.Server.Transcription.Jobs.{
  is_fresh, IsRuntime, drop_stale_exact, pop_next_exact, ingest-IsRuntime,
}

-- a chunk that the next frame completes
abbrev long : LiveTranscriptChunker ℕ
long = record {
  buffer = 1 ∷ 2 ∷ [];
  contexts = channel 7 ∷ [];
  started_at_ms = some 100;
  voiced_frames = 300;
  silence_frames = 0;
  total_frames = 399;
}

long-IsChunk : IsChunk (mode_config fast) long
long-IsChunk = record {
  speech = λ z. ground arith;
  counted = omega arith;
  short = omega arith;
  heard = omega arith;
  few = omega arith;
}

push_chunk-IsChunk_example :
    IsChunk
      (mode_config fast)
      (push_chunk long 1 (channel 8) (3 ∷ []) true (mode_config fast) 5_000).1
push_chunk-IsChunk_example =
    push_chunk-IsChunk (mode_config fast) long 1 (channel 8) (3 ∷ []) true 5_000 (modes-IsMode fast)
      long-IsChunk

push_chunk_job_example :
    let result = push_chunk long 1 (channel 8) (3 ∷ []) true (mode_config fast) 5_000 in
    AfterFrame (mode_config fast) long 1 (3 ∷ []) true result.0 result.1
push_chunk_job_example = push_chunk_job (mode_config fast) long 1 (channel 8) (3 ∷ []) true 5_000

abbrev ended_at : ℕ → LiveTranscriptJob ℕ
ended_at ms = record {
  user_id = 1;
  started_at_ms = 0;
  ended_at_ms = ms;
  contexts = [];
  samples_16khz = [];
}

abbrev waiting : LiveTranscriptionUserRuntime ℕ
waiting = record idle {
  chunker = long;
  pending = ended_at 100 ∷ ended_at 9_000 ∷ [];
  queued_jobs = 2;
  worker_running = true;
}

drop_stale_exact_example :
    let after = drop_stale_live_transcription_jobs waiting 5_000 10_000 in
    (after.pending ≡ filter (is_fresh 5_000 10_000) waiting.pending)
    × (after.queued_jobs ≡ length after.pending)
    × (after.stale_jobs + length after.pending ≡ waiting.stale_jobs + length waiting.pending)
    × (after.dropped_jobs ≡ waiting.dropped_jobs)
    × (after.chunker ≡ waiting.chunker)
drop_stale_exact_example = drop_stale_exact waiting 5_000 10_000

pop_next_exact_example :
    let (job, after) = pop_next_live_transcription_job waiting 5_000 10_000 in
    ((job ≡ none)
      × (any (is_fresh 5_000 10_000) waiting.pending ≡ false)
      × (after.pending ≡ [])
      × (after.queued_jobs ≡ 0)
      × (after.stale_jobs ≡ waiting.stale_jobs + length waiting.pending))
    ⊎ ((next : LiveTranscriptJob ℕ) × (passed : List (LiveTranscriptJob ℕ)) × (job ≡ some next)
        × (is_fresh 5_000 10_000 next ≡ true)
        × (any (is_fresh 5_000 10_000) passed ≡ false)
        × (waiting.pending ≡ passed ++ next ∷ after.pending)
        × (after.stale_jobs ≡ waiting.stale_jobs + length passed)
        × (after.queued_jobs ≡ length after.pending))
pop_next_exact_example = pop_next_exact waiting 5_000 10_000

waiting-IsRuntime : IsRuntime fast waiting
waiting-IsRuntime = record { within = omega arith; queued = refl; chunk = long-IsChunk }

ingest-IsRuntime_example :
    IsRuntime fast
      (ingest_frame waiting 1 (channel 8) (3 ∷ []) true fast 5_000 10_000 10_001 10_002).1
ingest-IsRuntime_example =
    ingest-IsRuntime waiting 1 (channel 8) (3 ∷ []) true fast 5_000 10_000 10_001 10_002
      waiting-IsRuntime
