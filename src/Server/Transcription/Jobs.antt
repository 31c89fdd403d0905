-- ===== src/Server/Transcription/Jobs.antt =====
-- Which jobs are kept, dropped and done.
use open_broadcast_intercom.Base.{
  ℕ, ◌+◌, ◌≤◌, ◌≡◌, refl, sym, ap, append-nil, append_assoc, length-filter-le, Option-cases, ◌∙◌,
  ◌⊎◌, inl, inr, Bool, true, false, not, none, some, List, [], ◌∷◌, ◌++◌, leb, length,
  length-append, filter, any, arith, Bool-cases, tests,
}
use open_broadcast_intercom.Wire.Types.{AudioTarget}
use open_broadcast_intercom.Server.Transcription.{
  LiveTranscriptionMode, mode_config, LiveTranscriptJob, is_stale, push_chunk,
}
use open_broadcast_intercom.Server.Transcription.Chunks.{IsChunk, push_chunk-IsChunk, modes-IsMode}
use open_broadcast_intercom.Server.Transcription.Queue.{
  LiveTranscriptionUserRuntime, queue_limit, count_stale, sift, pop_fresh,
  drop_stale_live_transcription_jobs, pop_next_live_transcription_job, enqueue_job, ingest_frame,
}

module _ {A : Type 0} where
  abbrev pub is_fresh : ℕ → ℕ → LiveTranscriptJob A → Bool
  is_fresh stale_job_ms now_ms job = not (is_stale stale_job_ms now_ms job)

  sift-exact :
      (stale now : ℕ) (jobs kept : List (LiveTranscriptJob A)) (r : LiveTranscriptionUserRuntime A)
      → let after = sift stale now jobs kept r in
        (after.pending ≡ kept ++ filter (is_fresh stale now) jobs)
        × (after.queued_jobs ≡ length after.pending)
        × (after.stale_jobs + length after.pending ≡ r.stale_jobs + length kept + length jobs)
        × (after.dropped_jobs ≡ r.dropped_jobs)
        × (after.chunker ≡ r.chunker)
  unfolding sift filter
  sift-exact stale now [] kept r = (sym (append-nil kept), refl, omega arith, refl, refl)
  sift-exact stale now (job ∷ jobs) kept r = elim (Bool-cases (is_stale stale now job)) [
    | inl e ↦ rw e (
        let rest = sift-exact stale now jobs kept (count_stale job r) in
        (rest.0, rest.1, omega (arith, rest.2), rest.3, rest.4))
    | inr e ↦ rw e (
        let rest = sift-exact stale now jobs (kept ++ job ∷ []) r in
        (
          rest.0 ∙ append_assoc kept (job ∷ []) (filter (is_fresh stale now) jobs),
          rest.1,
          omega (arith, rest.2, length-append kept (job ∷ [])),
          rest.3,
          rest.4,
        ))
  ]

  -- Of the jobs that wait, exactly those that are not stale are kept, in their order; the others are
  -- counted as stale, and the number of queued jobs is that of the jobs kept.
  pub drop_stale_exact :
      (r : LiveTranscriptionUserRuntime A) (stale now : ℕ)
      → let after = drop_stale_live_transcription_jobs r stale now in
        (after.pending ≡ filter (is_fresh stale now) r.pending)
        × (after.queued_jobs ≡ length after.pending)
        × (after.stale_jobs + length after.pending ≡ r.stale_jobs + length r.pending)
        × (after.dropped_jobs ≡ r.dropped_jobs)
        × (after.chunker ≡ r.chunker)
  unfolding drop_stale_live_transcription_jobs
  drop_stale_exact r stale now = ground (arith, sift-exact stale now r.pending [] r)

  pop_fresh-exact :
      (stale now : ℕ) (jobs : List (LiveTranscriptJob A)) (r : LiveTranscriptionUserRuntime A)
      → let (job, after) = pop_fresh stale now jobs r in
        ((job ≡ none)
          × (any (is_fresh stale now) jobs ≡ false)
          × (after.pending ≡ [])
          × (after.queued_jobs ≡ 0)
          × (after.stale_jobs ≡ r.stale_jobs + length jobs))
        ⊎ ((next : LiveTranscriptJob A) × (passed : List (LiveTranscriptJob A)) × (job ≡ some next)
            × (is_fresh stale now next ≡ true)
            × (any (is_fresh stale now) passed ≡ false)
            × (jobs ≡ passed ++ next ∷ after.pending)
            × (after.stale_jobs ≡ r.stale_jobs + length passed)
            × (after.queued_jobs ≡ length after.pending))
  unfolding pop_fresh any
  pop_fresh-exact stale now [] r = inl (refl, refl, refl, refl, omega arith)
  pop_fresh-exact stale now (job ∷ jobs) r = elim (Bool-cases (is_stale stale now job)) [
    | inl e ↦ rw e (elim (pop_fresh-exact stale now jobs (count_stale job r)) [
      | inl (a, b, c, d, n) ↦ inl (a, b, c, d, omega arith)
      | inr (next, passed, a, f, b, c, n, q) ↦
          inr (next, job ∷ passed, a, f, rw e b, ap (λ js. job ∷ js) c, omega arith, q)
    ])
    | inr e ↦ rw e (inr (job, [], refl, rw e refl, refl, refl, omega arith, refl))
  ]

  -- A worker is given the oldest job that is not stale, or none when all are; what stays behind it is
  -- kept, and the stale jobs that were passed over are counted.
  pub pop_next_exact :
      (r : LiveTranscriptionUserRuntime A) (stale now : ℕ)
      → let (job, after) = pop_next_live_transcription_job r stale now in
        ((job ≡ none)
          × (any (is_fresh stale now) r.pending ≡ false)
          × (after.pending ≡ [])
          × (after.queued_jobs ≡ 0)
          × (after.stale_jobs ≡ r.stale_jobs + length r.pending))
        ⊎ ((next : LiveTranscriptJob A) × (passed : List (LiveTranscriptJob A)) × (job ≡ some next)
            × (is_fresh stale now next ≡ true)
            × (any (is_fresh stale now) passed ≡ false)
            × (r.pending ≡ passed ++ next ∷ after.pending)
            × (after.stale_jobs ≡ r.stale_jobs + length passed)
            × (after.queued_jobs ≡ length after.pending))
  unfolding pop_next_live_transcription_job
  pop_next_exact r stale now = pop_fresh-exact stale now r.pending r

  -- The queue is within its limit, its length is known, and the chunk is within its mode.
  pub record IsRuntime (mode : LiveTranscriptionMode) (r : LiveTranscriptionUserRuntime A)
      : Type 0 where
    pub within : length r.pending ≤ queue_limit
    pub queued : r.queued_jobs ≡ length r.pending
    pub chunk : IsChunk (mode_config mode) r.chunker

  drop_stale-IsRuntime :
      (mode : LiveTranscriptionMode) (r : LiveTranscriptionUserRuntime A) (stale now : ℕ)
      → IsRuntime mode r
      → IsRuntime mode (drop_stale_live_transcription_jobs r stale now)
  drop_stale-IsRuntime mode r stale now h =
      let kept = drop_stale_exact r stale now in
      record {
        within = omega (
          arith,
          h.within,
          kept.2,
          ap (λ js. length js) kept.0,
          length-filter-le (is_fresh stale now) r.pending,
        );
        queued = kept.1;
        chunk = rw (kept.4) h.chunk;
      }

  enqueue-IsRuntime :
      (mode : LiveTranscriptionMode) (r : LiveTranscriptionUserRuntime A)
      (job : LiveTranscriptJob A)
      → IsRuntime mode r
      → IsRuntime mode (enqueue_job job r).1
  unfolding enqueue_job
  enqueue-IsRuntime mode r job h = elim (Bool-cases (leb queue_limit (length r.pending))) [
    | inl e ↦ rw e record { within = h.within; queued = h.queued; chunk = h.chunk }
    | inr e ↦ rw e record {
      within = omega (tests, length-append r.pending (job ∷ []));
      queued = omega (arith, length-append r.pending (job ∷ []));
      chunk = h.chunk;
    }
  ]

  -- When a user's queue is within its limit with its count right, and the chunk within the limits of
  -- the mode, that is so after any frame too.
  pub ingest-IsRuntime :
      (r : LiveTranscriptionUserRuntime A) (u : ℕ) (target : AudioTarget) (samples : List A)
      (voiced : Bool) (mode : LiveTranscriptionMode) (stale first second third : ℕ)
      → IsRuntime mode r
      → IsRuntime mode (ingest_frame r u target samples voiced mode stale first second third).1
  unfolding ingest_frame
  ingest-IsRuntime r u target samples voiced mode stale first second third h =
      let sifted = drop_stale_live_transcription_jobs r stale first in
      let runs = drop_stale-IsRuntime mode r stale first h in
      let pushed = push_chunk sifted.chunker u target samples voiced (mode_config mode) second in
      let chunk =
        push_chunk-IsChunk (mode_config mode) sifted.chunker u target samples voiced second
          (modes-IsMode mode) runs.chunk in
      elim (Option-cases pushed.0) [
        | inl e ↦
            rw (e, ingest_frame)
              record { within = runs.within; queued = runs.queued; chunk = chunk }
        | inr (job, e) ↦
            rw (e, ingest_frame)
              (enqueue-IsRuntime mode _ job (
                drop_stale-IsRuntime mode _ stale third
                  record { within = runs.within; queued = runs.queued; chunk = chunk }))
      ]
