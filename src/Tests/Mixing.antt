-- ===== src/Tests/Mixing.antt =====
-- What the mixer takes frames from.
use open_broadcast_intercom.Base.{
  ℕ, ◌+◌, ◌-◌, ◌%◌, ◌≤◌, ◌<◌, ◌≡◌, true, false, List, [], ◌∷◌, ◌++◌, arith, nat_eq, nat_beq, leb,
  if◌then◌else◌, length, drop, take,
}
use open_broadcast_intercom.Base.Map.{Map}
use open_broadcast_intercom.Base.Map
use open_broadcast_intercom.Wire.Types.{channel}
use open_broadcast_intercom.Server.Sources.{
  QueuedFrame, SourceQueue, push_with_options, new_source, is_finished, max_source_queue_frames,
}
use open_broadcast_intercom.Server.Sources.Order.{
  push_keeps_newest, play, source_plays_all, seq_of, after_packets, seq_counts,
}

abbrev frame_of : ℕ → QueuedFrame ℕ
frame_of sample = record {
  target = channel 7;
  samples = sample ∷ [];
  priority = false;
  duck = false;
}

abbrev full : SourceQueue ℕ
full = record {
  frames = frame_of 1 ∷ frame_of 2 ∷ frame_of 3 ∷ frame_of 4 ∷ frame_of 5 ∷ frame_of 6 ∷ [];
  last_seen = 4;
}

push_keeps_newest_example :
    let (dropped, after) = push_with_options full 5 (channel 7) (7 ∷ []) false false in
    let all = full.frames ++ frame_of 7 ∷ [] in
    (after.frames ≡ drop (length all - max_source_queue_frames) all)
    × (length after.frames ≤ max_source_queue_frames)
    × (length after.frames + (if dropped then 1 else 0) ≡ length full.frames + 1)
push_keeps_newest_example = push_keeps_newest full 5 (channel 7) (7 ∷ []) false false (omega arith)

abbrev chime : List (List ℕ)
chime = (1 ∷ []) ∷ (2 ∷ []) ∷ []

source_plays_all_example :
    let (played, after) = play 3 (new_source 64_000 (channel 7) chime true false) in
    (played ≡ take 3 chime) × (is_finished after ≡ leb (length chime) 3)
source_plays_all_example = source_plays_all 64_000 (channel 7) chime true false 3

abbrev seqs : Map ℕ
seqs = (1, 65_535) ∷ (2, 9) ∷ []

seqs_fit : seq_of seqs 1 < 65_536
unfolding Map.get
seqs_fit = omega arith

seq_counts_example :
    seq_of (after_packets 2 seqs 1) 2
    ≡ (if nat_beq 2 1 then (seq_of seqs 1 + 2) % 65_536 else seq_of seqs 2)
seq_counts_example = seq_counts 2 seqs 1 2 seqs_fit
