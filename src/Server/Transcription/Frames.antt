-- ===== src/Server/Transcription/Frames.antt =====
-- What becomes of a frame of live transcription.
use open_broadcast_intercom.Base.{
  ℕ, ◌+◌, ◌-◌, ◌*◌, ◌≤◌, ◌<◌, ◌≡◌, ◌⊎◌, inl, inr, Bool, true, false, not, ◌&&◌, ◌||◌, Option, none,
  some, List, [], ◌∷◌, ◌++◌, ltb, leb, ◌==◌, nat_eq, if◌then◌else◌, length, drop, arith, refl,
  length-drop, Bool-cases,
}
use open_broadcast_intercom.Wire.Types.{AudioTarget, samples_per_frame}
use open_broadcast_intercom.Control.{target_eq}
use open_broadcast_intercom.Server.Transcription.{
  LiveTranscriptionModeConfig, LiveTranscriptChunker, LiveTranscriptJob, finalize, end_chunk,
  push_chunk, with_frame, overlapping, job_of, is_empty_buffer, cleared, minimum,
}

module _ {A : Type 0} where
  -- the frame is counted: as voiced, or as silence once there is speech
  abbrev pub said : LiveTranscriptChunker A → Bool → ℕ
  said c true = c.voiced_frames + 1
  said c false = c.voiced_frames

  abbrev pub quiet : LiveTranscriptChunker A → Bool → ℕ
  quiet c true = 0
  quiet c false = if ltb 0 c.voiced_frames then c.silence_frames + 1 else c.silence_frames

  -- the frame is silent and the chunk has nothing yet
  abbrev pub Ignored : LiveTranscriptChunker A → Bool → Type 0
  Ignored c voiced = (voiced ≡ false) × (c.buffer ≡ [])

  -- the chunk is at its greatest length with the frame
  abbrev pub IsFull : LiveTranscriptionModeConfig → LiveTranscriptChunker A → Type 0
  IsFull mode c = mode.max_frames ≤ c.total_frames + 1

  -- with the frame, the chunk has speech, and its silence or its length ends it
  abbrev pub Ends : LiveTranscriptionModeConfig → LiveTranscriptChunker A → Bool → Type 0
  Ends mode c voiced =
      (0 < said c voiced) × ((mode.silence_frames ≤ quiet c voiced) ⊎ IsFull mode c)

  abbrev pub GoesOn : LiveTranscriptionModeConfig → LiveTranscriptChunker A → Bool → Type 0
  GoesOn mode c voiced =
      (said c voiced ≡ 0)
      ⊎ ((quiet c voiced < mode.silence_frames) × (c.total_frames + 1 < mode.max_frames))

  -- what a chunk keeps when it becomes a job: its last samples if it was full, and nothing otherwise
  abbrev pub Leaves :
      LiveTranscriptionModeConfig
      → LiveTranscriptChunker A
      → List A
      → LiveTranscriptChunker A
      → Type 0
  Leaves mode c samples after =
      (IsFull mode c
        × ((dropped : ℕ) × (after.buffer ≡ drop dropped (c.buffer ++ samples))
            × (length after.buffer
                ≡ minimum (mode.overlap_frames * samples_per_frame)
                    (length (c.buffer ++ samples)))))
      ⊎ ((c.total_frames + 1 < mode.max_frames) × (after ≡ cleared))

  Ignored-cases :
      (c : LiveTranscriptChunker A) (voiced : Bool)
      → (((is_empty_buffer c.buffer && not voiced) ≡ true) × Ignored c voiced)
        ⊎ (((is_empty_buffer c.buffer && not voiced) ≡ false) × (¬ Ignored c voiced))
  Ignored-cases c voiced = cases c.buffer voiced
    where
      cases :
          (buffer : List A) (voiced : Bool)
          → (((is_empty_buffer buffer && not voiced) ≡ true) × ((voiced ≡ false) × (buffer ≡ [])))
            ⊎ (((is_empty_buffer buffer && not voiced) ≡ false)
                × (¬ ((voiced ≡ false) × (buffer ≡ []))))
      cases [] false = inl (refl, (refl, refl))
      cases [] true = inr (refl, λ h. ground arith)
      cases (x ∷ xs) voiced = inr (refl, λ h. ground arith)

  counted_frame :
      (c : LiveTranscriptChunker A) (target : AudioTarget) (samples : List A) (voiced : Bool)
      (now : ℕ)
      → let added = with_frame c target samples voiced now in
        (added.voiced_frames ≡ said c voiced) × (added.silence_frames ≡ quiet c voiced)
  counted_frame c target samples true now = (refl, refl)
  counted_frame c target samples false now = (refl, refl)

  overlapping-Leaves :
      (mode : LiveTranscriptionModeConfig) (c : LiveTranscriptChunker A) (target : AudioTarget)
      (samples : List A) (voiced : Bool) (now user_id : ℕ)
      → let added = with_frame c target samples voiced now in
        Leaves mode c samples (
          if leb mode.max_frames added.total_frames
          then overlapping added (job_of added user_id now).ended_at_ms mode
          else cleared)
  overlapping-Leaves mode c target samples voiced now user_id =
      let added = with_frame c target samples voiced now in
      let keep = minimum (mode.overlap_frames * samples_per_frame) (length added.buffer) in
      elim (Bool-cases (leb mode.max_frames added.total_frames)) [
        | inl e ↦ rw e (
            inl (
              ground arith,
              (
                length added.buffer - keep,
                refl,
                ground (arith, length-drop (length added.buffer - keep) added.buffer),
              ),
            ))
        | inr e ↦ rw e (inr (ground arith, refl))
      ]

  -- the job that a frame makes, and the chunk after it
  abbrev pub AfterFrame :
      LiveTranscriptionModeConfig
      → LiveTranscriptChunker A
      → ℕ
      → List A
      → Bool
      → Option (LiveTranscriptJob A)
      → LiveTranscriptChunker A
      → Type 0
  AfterFrame mode c user_id samples voiced made after =
      (Ignored c voiced × (made ≡ none) × (after ≡ c))
      ⊎ ((¬ Ignored c voiced)
          × GoesOn mode c voiced
          × (made ≡ none)
          × (after.buffer ≡ c.buffer ++ samples)
          × (after.voiced_frames ≡ said c voiced)
          × (after.silence_frames ≡ quiet c voiced)
          × (after.total_frames ≡ c.total_frames + 1))
      ⊎ ((¬ Ignored c voiced)
          × Ends mode c voiced
          × (said c voiced < mode.min_speech_frames)
          × (made ≡ none)
          × (after ≡ cleared))
      ⊎ ((¬ Ignored c voiced)
          × Ends mode c voiced
          × (mode.min_speech_frames ≤ said c voiced)
          × ((job : LiveTranscriptJob A) × (made ≡ some job)
              × (job.samples_16khz ≡ c.buffer ++ samples)
              × (job.user_id ≡ user_id))
          × Leaves mode c samples after)

  -- What becomes of a frame. A silent one leaves a chunk without samples as it is. Any other joins the
  -- chunk: its samples come behind those of the chunk, and it is counted as one frame more, as voiced
  -- or, once there is speech, as silence. The chunk goes on, without a job, unless it has speech by then and either its
  -- silence or its length has reached what the mode allows. Then it ends: with fewer voiced frames
  -- than the mode asks for it is cleared without a job, and with enough of them its samples, with
  -- those of the frame, are the job's; at the greatest length the chunk keeps the last of them, as
  -- many as the mode's overlap has or all if there are fewer, and otherwise it is cleared.
  pub push_chunk_job :
      (mode : LiveTranscriptionModeConfig) (c : LiveTranscriptChunker A) (user_id : ℕ)
      (target : AudioTarget) (samples : List A) (voiced : Bool) (now : ℕ)
      → let result = push_chunk c user_id target samples voiced mode now in
        AfterFrame mode c user_id samples voiced result.0 result.1
  unfolding push_chunk end_chunk finalize
  push_chunk_job mode c user_id target samples voiced now =
      let added = with_frame c target samples voiced now in
      let counts = counted_frame c target samples voiced now in
      elim (Ignored-cases c voiced) [
        | inl (e, ignored) ↦ inl (ignored, rw e refl, rw e refl)
        | inr (e, joins) ↦ elim (Bool-cases (added.voiced_frames == 0)) [
          | inl s ↦
              rw (e, s)
                (inr (inl (joins, inl (ground arith), refl, refl, counts.0, counts.1, refl)))
          | inr s ↦
              elim (Bool-cases (
                leb mode.silence_frames added.silence_frames
                || leb mode.max_frames added.total_frames)) [
                  | inr f ↦
                      rw (e, s, f)
                        (inr (
                          inl (
                            joins,
                            inr (ground arith, ground arith),
                            refl,
                            refl,
                            counts.0,
                            counts.1,
                            refl,
                          )))
                  | inl f ↦ elim (Bool-cases (ltb added.voiced_frames mode.min_speech_frames)) [
                    | inl few ↦
                        rw (e, s, f, few)
                          (inr (
                            inr (
                              inl (joins, (ground arith, ground arith), ground arith, refl, refl))))
                    | inr enough ↦
                        rw (e, s, f, enough)
                          (inr (
                            inr (
                              inr (
                                joins,
                                (ground arith, ground arith),
                                ground arith,
                                (job_of added user_id now, refl, refl, refl),
                                overlapping-Leaves mode c target samples voiced now user_id,
                              ))))
                  ]
                ]
        ]
      ]
