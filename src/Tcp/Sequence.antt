-- ===== src/Tcp/Sequence.antt =====
-- `_unwrap_sequence` finds the position nearest to the reference.
use packet_inspector_windows.Prelude.{ℕ, ◌+◌, ◌-◌, ◌%◌, ◌^◌, ◌≤◌, ◌<◌, ◌≡◌, arith}
use packet_inspector_windows.Prelude.Int.{pos, pos_part, neg_part}
use packet_inspector_windows.Tcp.State.{unwrap_sequence}

-- The unwrapped position is at most 2 ** 31 away from the reference, on either side, and its low
-- 32 bits are those of the sequence number.
pub unwrap_sequence_nearest :
    (sequence reference : ℕ)
    → let position = unwrap_sequence sequence reference in
      (pos_part position ≤ reference + neg_part position + 2 ^ 31)
      × (reference + neg_part position ≤ pos_part position + 2 ^ 31)
      × ((pos_part position + 2 ^ 32 - neg_part position) % 2 ^ 32 ≡ sequence % 2 ^ 32)
unfolding unwrap_sequence
unwrap_sequence_nearest sequence reference = ground arith

-- A stream position less than 2 ** 31 away from the reference is recovered from its low 32 bits,
-- however often the sequence number has wrapped round.
pub unwrap_sequence_recovers :
    (position reference : ℕ)
    → position < reference + 2 ^ 31
    → reference < position + 2 ^ 31
    → unwrap_sequence (position % 2 ^ 32) reference ≡ pos position
unfolding unwrap_sequence
unwrap_sequence_recovers position reference h k = ground arith
