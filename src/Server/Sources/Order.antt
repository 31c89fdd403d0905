-- ===== src/Server/Sources/Order.antt =====
-- In which order frames are played, and how sequence numbers run.
use open_broadcast_intercom.Base.{
  ℕ, zero, suc, ◌+◌, ◌-◌, ◌%◌, ◌≤◌, ◌<◌, ◌≡◌, refl, ap, ◌∙◌, inl, inr, Bool, Option, none, some,
  List, [], ◌∷◌, ◌++◌, ◌==◌, nat_eq, leb, if◌then◌else◌, length, get_elem?, drop, take, arith,
  Bool-cases, length-append, length-drop, nat_beq_iff, beq_refl,
}
use open_broadcast_intercom.Base.Map
use open_broadcast_intercom.Base.Map.{Map, get-insert}
use open_broadcast_intercom.Wire.Types.{AudioTarget}
use open_broadcast_intercom.Playback.Queue.{at_reader}
use open_broadcast_intercom.Server.Sources.{
  QueuedFrame, SourceQueue, VirtualAudioSource, ActiveSourceFrame, push_with_options, new_source,
  next_frame, is_finished, next_output_seq, max_source_queue_frames,
}

module _ {A : Type 0} where
  drop_oldest :
      (frames : List (QueuedFrame A)) (frame : QueuedFrame A)
      → 0 < length frames
      → drop 1 frames ++ frame ∷ [] ≡ drop 1 (frames ++ frame ∷ [])
  drop_oldest [] frame h = ground arith
  drop_oldest (f ∷ frames) frame h = refl

  -- When a queue has at most six frames, it has after a push the last six of those and the new one,
  -- and the push reports whether one was dropped.
  pub push_keeps_newest :
      (queue : SourceQueue A) (now : ℕ) (target : AudioTarget) (samples : List A)
      (priority duck : Bool)
      → length queue.frames ≤ max_source_queue_frames
      → let (dropped, after) = push_with_options queue now target samples priority duck in
        let frame : QueuedFrame A = record {
          target = target;
          samples = samples;
          priority = priority;
          duck = duck;
        } in
        let all = queue.frames ++ frame ∷ [] in
        (after.frames ≡ drop (length all - max_source_queue_frames) all)
        × (length after.frames ≤ max_source_queue_frames)
        × (length after.frames + (if dropped then 1 else 0) ≡ length queue.frames + 1)
  unfolding push_with_options
  push_keeps_newest queue now target samples priority duck h =
      let frame : QueuedFrame A = record {
        target = target;
        samples = samples;
        priority = priority;
        duck = duck;
      } in
      let all_length : length (queue.frames ++ frame ∷ []) ≡ length queue.frames + 1 =
        length-append queue.frames (frame ∷ []) in
      elim (Bool-cases (length queue.frames == max_source_queue_frames)) [
        | inl e ↦
            let one : length (queue.frames ++ frame ∷ []) - max_source_queue_frames ≡ 1 =
              ground arith in
            let oldest : drop 1 queue.frames ++ frame ∷ [] ≡ drop 1 (queue.frames ++ frame ∷ []) =
              drop_oldest queue.frames frame (ground arith) in
            rw (e, one, oldest)
              (
                refl,
                ground (arith, length-drop 1 (queue.frames ++ frame ∷ [])),
                ground (arith, length-drop 1 (queue.frames ++ frame ∷ [])),
              )
        | inr e ↦
            let none_over : length (queue.frames ++ frame ∷ []) - max_source_queue_frames ≡ 0 =
              ground arith in
            rw (e, none_over) (refl, ground arith, ground arith)
      ]

  -- the frames that a source plays in `n` rounds of the mixer
  unfoldable pub play : ℕ → VirtualAudioSource A → List (List A) × VirtualAudioSource A
  play zero source = ([], source)
  play (suc n) source =
      let (frame, next) = next_frame source in
      let (rest, last) = play n next in
      (elim frame [ none ↦ rest | some frame ↦ frame.samples ∷ rest ], last)

  next_none :
      (source : VirtualAudioSource A)
      → get_elem? source.frames source.frame_index ≡ none
      → next_frame source ≡ (none, source)
  unfolding next_frame
  next_none source g = rw (g, next_frame) refl

  next_some :
      (source : VirtualAudioSource A) (samples : List A)
      → get_elem? source.frames source.frame_index ≡ some samples
      → (frame : ActiveSourceFrame A) × (frame.samples ≡ samples)
        × (next_frame source ≡ (some frame, record source { frame_index = source.frame_index + 1 }))
  unfolding next_frame
  next_some source samples g = (
    record {
      user_id = source.user_id;
      target = source.target;
      samples = samples;
      priority = source.priority;
      duck = source.duck;
    },
    refl,
    rw (g, next_frame) refl,
  )

  -- one round
  abbrev after_round :
      ℕ → Option (ActiveSourceFrame A) × VirtualAudioSource A → List (List A) × VirtualAudioSource A
  after_round n (frame, next) = (
    elim frame [ none ↦ (play n next).0 | some frame ↦ frame.samples ∷ (play n next).0 ],
    (play n next).1,
  )

  play_step :
      (n : ℕ) (source : VirtualAudioSource A)
      (round : Option (ActiveSourceFrame A) × VirtualAudioSource A)
      → next_frame source ≡ round
      → play (suc n) source ≡ after_round n round
  unfolding play
  play_step n source round e = ap (after_round n) e

  play_from :
      (n : ℕ) (source : VirtualAudioSource A)
      → ((play n source).0 ≡ take n (drop source.frame_index source.frames))
        × ((play n source).1.frames ≡ source.frames)
        × (is_finished (play n source).1 ≡ leb (length source.frames) (source.frame_index + n))
  play_from zero source = unfold play in unfold is_finished in (refl, refl, ground arith)
  play_from (suc n) source = elim (at_reader source.frame_index source.frames) [
    | inl (d, g) ↦
        let rest = play_from n source in
        rw (play_step n source (none, source) (next_none source g), d)
          (rest.0 ∙ ap (λ xs. take n xs) d ∙ take_none n, rest.1, rest.2 ∙ ended source d)
    | inr (samples, d, g, b) ↦
        let (frame, same, step) = next_some source samples g in
        let rest = play_from n (record source { frame_index = source.frame_index + 1 }) in
        rw (play_step n source _ step, d)
          (ground (arith, rest.0, same), rest.1, ground (arith, rest.2))
  ]
    where
      take_none : (n : ℕ) → take {A = List A} n [] ≡ []
      take_none zero = refl
      take_none (suc n) = refl

      ended :
          (source : VirtualAudioSource A)
          → drop source.frame_index source.frames ≡ []
          → leb (length source.frames) (source.frame_index + n)
            ≡ leb (length source.frames) (source.frame_index + suc n)
      ended source d =
          ground (arith, length-drop source.frame_index source.frames, ap (λ xs. length xs) d)

  -- A source of the server plays its frames in their order, each once, whatever their number, and
  -- after as many rounds as it has frames it is finished.
  pub source_plays_all :
      (user_id : ℕ) (target : AudioTarget) (frames : List (List A)) (priority duck : Bool) (n : ℕ)
      → let (played, after) = play n (new_source user_id target frames priority duck) in
        (played ≡ take n frames) × (is_finished after ≡ leb (length frames) n)
  unfolding new_source
  source_plays_all user_id target frames priority duck n =
      let from = play_from n (new_source user_id target frames priority duck) in
      (from.0, ground (arith, from.2))

-- the number that is given next to a user
abbrev pub seq_of : Map ℕ → ℕ → ℕ
seq_of output_seq user_id = elim (Map.get output_seq user_id) [ none ↦ 0 | some seq ↦ seq ]

unfoldable pub after_packets : ℕ → Map ℕ → ℕ → Map ℕ
after_packets zero output_seq user_id = output_seq
after_packets (suc n) output_seq user_id =
    after_packets n (next_output_seq output_seq user_id).1 user_id

-- When the next number of a user fits 16 bits, `n` packets to that user advance it by `n`, wrapping
-- around at 65,536, and leave the numbers of all other users as they are.
pub seq_counts :
    (n : ℕ) (output_seq : Map ℕ) (user_id other : ℕ)
    → seq_of output_seq user_id < 65_536
    → seq_of (after_packets n output_seq user_id) other ≡ (
        if other == user_id
        then (seq_of output_seq user_id + n) % 65_536
        else seq_of output_seq other)
unfolding after_packets next_output_seq
seq_counts zero output_seq user_id other h = elim (Bool-cases (other == user_id)) [
  | inl e ↦ rw ((nat_beq_iff other user_id).0 e) (rw (beq_refl user_id) (ground arith))
  | inr e ↦ rw e refl
]
seq_counts (suc n) output_seq user_id other h =
    let seqs = (next_output_seq output_seq user_id).1 in
    let own : seq_of seqs user_id ≡ (seq_of output_seq user_id + 1) % 65_536 =
      ground
        (arith, get-insert output_seq user_id user_id ((seq_of output_seq user_id + 1) % 65_536)) in
    let others : seq_of seqs other ≡ (
        if other == user_id
        then (seq_of output_seq user_id + 1) % 65_536
        else seq_of output_seq other) =
      ground
        (arith, get-insert output_seq user_id other ((seq_of output_seq user_id + 1) % 65_536)) in
    ground (arith, seq_counts n seqs user_id other (ground arith), own, others)
