-- ===== src/Server/Transcription/Chunks.antt =====
-- What a chunk of live transcription holds, and what becomes a job.
use open_broadcast_intercom.Base.{
  ℕ, ◌≤◌, ◌<◌, ◌≡◌, inl, inr, Bool, true, false, not, ◌&&◌, ◌||◌, List, [], ◌∷◌, ◌++◌, ltb, leb,
  ◌==◌, nat_eq, if◌then◌else◌, length, arith, length-append, length-drop, Bool-cases,
}
use open_broadcast_intercom.Wire.Types.{AudioTarget}
use open_broadcast_intercom.Control.{target_eq}
use open_broadcast_intercom.Server.Transcription.{
  LiveTranscriptionModeConfig, LiveTranscriptionMode, fast, balanced, reliable, mode_config,
  LiveTranscriptChunker, finalize, end_chunk, push_chunk, with_frame, with_context, overlapping,
  job_of, is_empty_buffer, cleared,
}

-- A chunk is empty until speech starts, is shorter than the mode allows, ends before its silence is
-- as long as the mode allows, and has at most sixteen contexts.
pub record IsChunk {A : Type 0} (mode : LiveTranscriptionModeConfig) (c : LiveTranscriptChunker A)
    : Type 0 where
  pub speech : c.voiced_frames ≡ 0 → (c.total_frames ≡ 0) × (c.buffer ≡ [])
  pub counted : c.voiced_frames ≤ c.total_frames
  pub short : c.total_frames < mode.max_frames
  pub heard : c.silence_frames < mode.silence_frames
  pub few : length c.contexts ≤ 16

-- The limits of a mode make sense.
pub record IsMode (mode : LiveTranscriptionModeConfig) : Type 0 where
  pub some_silence : 0 < mode.silence_frames
  pub some_overlap : 0 < mode.overlap_frames
  pub short_overlap : mode.overlap_frames < mode.max_frames
  pub some_speech : 0 < mode.min_speech_frames

pub modes-IsMode : (mode : LiveTranscriptionMode) → IsMode (mode_config mode)
modes-IsMode fast = ground arith
modes-IsMode balanced = ground arith
modes-IsMode reliable = ground arith

few_contexts :
    (contexts : List AudioTarget) (target : AudioTarget)
    → length contexts ≤ 16
    → length (with_context contexts target) ≤ 16
few_contexts contexts target h =
    ground (arith, length-append contexts (target ∷ []), length-drop 8 (contexts ++ target ∷ []))

module _ {A : Type 0} where
  cleared-IsChunk :
      (mode : LiveTranscriptionModeConfig) → IsMode mode → IsChunk {A = A} mode cleared
  cleared-IsChunk mode m = ground arith

  overlapping-IsChunk :
      (mode : LiveTranscriptionModeConfig) (c : LiveTranscriptChunker A) (ended_at_ms : ℕ)
      → IsMode mode
      → 0 < c.total_frames
      → length c.contexts ≤ 16
      → IsChunk mode (overlapping c ended_at_ms mode)
  overlapping-IsChunk mode c ended_at_ms m h k = ground arith

  finalize-IsChunk :
      (mode : LiveTranscriptionModeConfig) (c : LiveTranscriptChunker A) (user_id now : ℕ)
      (keep : Bool)
      → IsMode mode
      → 0 < c.total_frames
      → length c.contexts ≤ 16
      → IsChunk mode (finalize c user_id keep mode now).1
  unfolding finalize
  finalize-IsChunk mode c user_id now keep m h k =
      elim (Bool-cases (ltb c.voiced_frames mode.min_speech_frames)) [
        | inl e ↦ rw e (cleared-IsChunk mode m)
        | inr e ↦ rw e (kept keep)
      ]
    where
      kept :
          (keep : Bool)
          → IsChunk mode
              (if keep then overlapping c (job_of c user_id now).ended_at_ms mode else cleared)
      kept true = overlapping-IsChunk mode c (job_of c user_id now).ended_at_ms m h k
      kept false = cleared-IsChunk mode m

  -- once a frame is added, the chunk has a voiced one
  speaks :
      (mode : LiveTranscriptionModeConfig) (c : LiveTranscriptChunker A) (target : AudioTarget)
      (samples : List A) (voiced : Bool) (now : ℕ)
      → IsChunk mode c
      → (is_empty_buffer c.buffer && not voiced) ≡ false
      → ((with_frame c target samples voiced now).voiced_frames == 0) ≡ false
  speaks mode c target samples voiced now h e = ground arith

  waiting-IsChunk :
      (mode : LiveTranscriptionModeConfig) (c : LiveTranscriptChunker A) (target : AudioTarget)
      (samples : List A) (voiced : Bool) (now : ℕ)
      → IsChunk mode c
      → ((with_frame c target samples voiced now).voiced_frames == 0) ≡ false
      → (leb mode.silence_frames (with_frame c target samples voiced now).silence_frames
          || leb mode.max_frames (with_frame c target samples voiced now).total_frames)
        ≡ false
      → IsChunk mode (with_frame c target samples voiced now)
  waiting-IsChunk mode c target samples voiced now h s e = record {
    speech = λ z. ground arith;
    counted = ground arith;
    short = ground arith;
    heard = ground arith;
    few = few_contexts c.contexts target h.few;
  }

  -- When the limits of a mode make sense, a frame keeps a chunk within them: the chunk is empty until
  -- speech starts, shorter than the greatest length, its silence shorter than what ends it, and its
  -- contexts at most sixteen.
  pub push_chunk-IsChunk :
      (mode : LiveTranscriptionModeConfig) (c : LiveTranscriptChunker A) (user_id : ℕ)
      (target : AudioTarget) (samples : List A) (voiced : Bool) (now : ℕ)
      → IsMode mode
      → IsChunk mode c
      → IsChunk mode (push_chunk c user_id target samples voiced mode now).1
  unfolding push_chunk end_chunk
  push_chunk-IsChunk mode c user_id target samples voiced now m h =
      let added = with_frame c target samples voiced now in
      elim (Bool-cases (is_empty_buffer c.buffer && not voiced)) [
        | inl e ↦ rw e h
        | inr e ↦
            let s = speaks mode c target samples voiced now h e in
            rw e
              (elim (Bool-cases (
                leb mode.silence_frames added.silence_frames
                || leb mode.max_frames added.total_frames)) [
                  | inl f ↦
                      rw (s, f)
                        (finalize-IsChunk mode added user_id now
                          (leb mode.max_frames added.total_frames) m (omega arith)
                          (few_contexts c.contexts target h.few))
                  | inr f ↦ rw (s, f) (waiting-IsChunk mode c target samples voiced now h s f)
                ])
      ]
