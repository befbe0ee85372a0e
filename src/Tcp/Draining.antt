-- ===== src/Tcp/Draining.antt =====
-- Emitting contiguous bytes: `_remember_consumed`, `_conflicts_with_consumed`, `_drain`,
-- `_skip_to_next_segment` and `_flush_direction`.
use packet_inspector_windows.Prelude.{
  ℕ, zero, suc, ◌+◌, ◌-◌, min, max, Bool, true, false, not, ◌&&◌, ◌||◌, Option, none, some, List,
  [], ◌∷◌, ◌++◌, Bytes, length, drop, slice, ltb, leb, ◌==◌, eq_list, is_nil, if◌then◌else◌,
}
use packet_inspector_windows.Prelude.Int.{ℤ, pos_part, neg_part}
use packet_inspector_windows.Models.{
  FlowKey, ProvenanceSpan, StreamChunk, Completeness, complete, midstream, gapped,
}
use packet_inspector_windows.Segments.{end_of}
use packet_inspector_windows.Fragments.{note_sources}
use packet_inspector_windows.Tcp.State.{TcpSegment, DirectionState, Counters}

-- The bytes kept when `start` follows on what the history holds.
abbrev continued : Option ℕ → Bytes → ℕ → Bytes
continued none history start = []
continued (some from) history start = if from + length history == start then history else []

abbrev continued_start : Option ℕ → Bytes → ℕ → ℕ
continued_start none history start = start
continued_start (some from) history start = if from + length history == start then from else start

-- `_remember_consumed`, with the limit `consumed_history_bytes`.
unfoldable pub remember_consumed : ℕ → DirectionState → ℕ → Bytes → DirectionState
remember_consumed limit d start new =
    let history = continued d.consumed_history_start d.consumed_history start ++ new in
    let from = continued_start d.consumed_history_start d.consumed_history start in
    let excess = length history - limit in
    if is_nil new then d else record d {
      consumed_history = drop excess history;
      consumed_history_start = some (from + excess);
    }

-- `position - start`, for a start at or before the position.
abbrev pub distance : ℤ → ℕ → ℕ
distance start position = position + neg_part start - pos_part start

consumed_conflict : Option ℕ → Bytes → ℤ → Bytes → Bool
consumed_conflict none history start new = false
consumed_conflict (some from) history start new =
    let overlap_start = max (pos_part start) from in
    let overlap_end = min (pos_part start + length new - neg_part start) (from + length history) in
    if is_nil history || is_nil new || leb overlap_end overlap_start
    then false
    else not (
        eq_list (slice new (distance start overlap_start) (distance start overlap_end))
          (slice history (overlap_start - from) (overlap_end - from)))

-- `_conflicts_with_consumed`. The start may be negative; both ends of the overlap are not.
unfoldable pub conflicts_with_consumed : DirectionState → ℤ → Bytes → Bool
unfolding consumed_conflict
conflicts_with_consumed d start new =
    consumed_conflict d.consumed_history_start d.consumed_history start new

-- The variables of the loop of `_drain`; `next` is `state.next_seq`, which is not `None` here, and
-- `parts` are joined.
pub record Drain : Type 0 where
  pub direction : DirectionState
  pub counters : Counters
  pub next : ℕ
  pub parts : Bytes
  pub packet_ids : List ℕ
  pub spans : List ProvenanceSpan
  pub timestamps : List ℕ

-- The first pending segment leaves the queue.
abbrev pub dequeue : TcpSegment → List TcpSegment → Drain → Drain
dequeue s rest v = record v {
  direction = record v.direction {
    pending = rest;
    pending_bytes = v.direction.pending_bytes - length s.bytes;
  };
  counters = record v.counters {
    buffered_bytes = v.counters.buffered_bytes - length s.bytes;
    buffered_segments = v.counters.buffered_segments - 1;
  };
}

abbrev pub count_retransmitted : ℕ → Drain → Drain
count_retransmitted n v = record v {
  counters = record v.counters { retransmitted_bytes = v.counters.retransmitted_bytes + n };
}

-- A span that goes on where the last one stopped, with its packet ids, extends it.
unfoldable pub extend_spans : List ProvenanceSpan → ProvenanceSpan → List ProvenanceSpan
extend_spans [] span = span ∷ []
extend_spans (last ∷ []) span =
    if last.stream_end == span.stream_start
      && eq_list last.packet_ids span.packet_ids
      && (if last.packet_ids_complete
          then span.packet_ids_complete
          else not span.packet_ids_complete)
    then record last { stream_end = span.stream_end } ∷ []
    else last ∷ span ∷ []
extend_spans (first ∷ second ∷ spans) span = first ∷ extend_spans (second ∷ spans) span

-- Emits what is new in a dequeued segment.
unfoldable pub take_segment : ℕ → TcpSegment → Drain → Drain
take_segment limit s v =
    let trim = v.next - s.start in
    let new = drop trim s.bytes in
    let counted = count_retransmitted trim v in
    let offset = v.direction.stream_offset in
    let span : ProvenanceSpan = record {
      stream_start = offset;
      stream_end = offset + length new;
      packet_ids = s.info.packet_ids;
      packet_ids_complete = true;
    } in
    if is_nil new then counted else record counted {
      parts = v.parts ++ new;
      packet_ids = note_sources v.packet_ids s.info.packet_ids;
      timestamps = v.timestamps ++ s.info.timestamp_ns ∷ [];
      spans = extend_spans v.spans span;
      next = v.next + length new;
      direction = record (remember_consumed limit v.direction v.next new) {
        stream_offset = offset + length new;
      };
    }

-- The loop, over the pending segments.
unfoldable pub drain_loop : ℕ → List TcpSegment → Drain → Drain
drain_loop limit [] v = v
drain_loop limit (s ∷ rest) v =
    let stale = drain_loop limit rest (count_retransmitted (length s.bytes) (dequeue s rest v)) in
    let taken = drain_loop limit rest (take_segment limit s (dequeue s rest v)) in
    if leb (end_of s) v.next then stale else if ltb v.next s.start then v else taken

-- `min` and `max` of the time stamps, of which there is at least one.
abbrev pub minimum : ℕ → List ℕ → ℕ
minimum m [] = m
minimum m (t ∷ ts) = minimum (min m t) ts

abbrev pub maximum : ℕ → List ℕ → ℕ
maximum m [] = m
maximum m (t ∷ ts) = maximum (max m t) ts

abbrev pub first_of_times : List ℕ → ℕ
first_of_times [] = 0
first_of_times (t ∷ ts) = minimum t ts

abbrev pub last_of_times : List ℕ → ℕ
last_of_times [] = 0
last_of_times (t ∷ ts) = maximum t ts

abbrev pub completeness_of : Bool → DirectionState → Completeness
completeness_of forced_gap d =
    if forced_gap || d.had_gap then gapped else if d.midstream then midstream else complete

-- What a method leaves of one direction: its state, the counters and the chunks.
pub record Emitted : Type 0 where
  pub direction : DirectionState
  pub counters : Counters
  pub chunks : List StreamChunk

abbrev pub silent : DirectionState → Counters → Emitted
silent d c = record { direction = d; counters = c; chunks = [] }

abbrev pub start_drain : DirectionState → Counters → ℕ → Drain
start_drain d c next = record {
  direction = d;
  counters = c;
  next = next;
  parts = [];
  packet_ids = [];
  spans = [];
  timestamps = [];
}

abbrev pub chunk_of : FlowKey → ℕ → ℕ → Bool → Drain → StreamChunk
chunk_of flow side start_offset forced_gap v = record {
  flow = flow;
  direction = side;
  stream_offset = start_offset;
  data_bytes = v.parts;
  packet_ids = v.packet_ids;
  first_timestamp_ns = first_of_times v.timestamps;
  last_timestamp_ns = last_of_times v.timestamps;
  connection_epoch = v.direction.connection_epoch;
  completeness = completeness_of forced_gap v.direction;
  provenance_spans = v.spans;
}

-- The chunk of a finished loop, if it has taken anything.
abbrev pub emit : FlowKey → ℕ → ℕ → Bool → Drain → Emitted
emit flow side start_offset forced_gap v = record {
  direction = record v.direction { next_seq = some v.next };
  counters = v.counters;
  chunks = if is_nil v.parts then [] else chunk_of flow side start_offset forced_gap v ∷ [];
}

unfoldable pub drain_from : ℕ → FlowKey → ℕ → Bool → DirectionState → Counters → Option ℕ → Emitted
drain_from limit flow side forced_gap d c none = silent d c
drain_from limit flow side forced_gap d c (some next) =
    if is_nil d.pending
    then silent d c
    else emit flow side d.stream_offset forced_gap
        (drain_loop limit d.pending (start_drain d c next))

-- `_drain`
unfoldable pub drain : ℕ → FlowKey → ℕ → Bool → DirectionState → Counters → Emitted
drain limit flow side forced_gap d c = drain_from limit flow side forced_gap d c d.next_seq

-- The gap before the first pending segment is skipped.
unfoldable pub skip_gap :
    List TcpSegment → Option ℕ → DirectionState → Counters → DirectionState × Counters
skip_gap (first ∷ _) (some next) d c =
    if ltb next first.start
    then (
      record d {
        next_seq = some first.start;
        stream_offset = d.stream_offset + (first.start - next);
        had_gap = true;
      },
      record c { gap_bytes = c.gap_bytes + (first.start - next) },
    )
    else (d, c)
skip_gap _ _ d c = (d, c)

-- `_skip_to_next_segment`. With nothing pending, or no position yet, `_drain` returns at once too.
unfoldable pub skip_to_next_segment : ℕ → FlowKey → ℕ → DirectionState → Counters → Emitted
skip_to_next_segment limit flow side d c =
    let (d', c') = skip_gap d.pending d.next_seq d c in drain limit flow side true d' c'

-- One round of `_flush_direction`.
unfoldable pub flush_round : ℕ → FlowKey → ℕ → DirectionState → Counters → Emitted
flush_round limit flow side d c =
    let e = drain limit flow side false d c in
    let f = skip_to_next_segment limit flow side e.direction e.counters in
    if not (is_nil e.direction.pending) && length e.direction.pending == length d.pending
    then record f { chunks = e.chunks ++ f.chunks }
    else e

-- The loop of `_flush_direction`, on fuel.
unfoldable pub flush_rounds : ℕ → ℕ → FlowKey → ℕ → DirectionState → Counters → Emitted
flush_rounds zero limit flow side d c = silent d c
flush_rounds (suc n) limit flow side d c =
    let e = flush_round limit flow side d c in
    let rest = flush_rounds n limit flow side e.direction e.counters in
    if is_nil d.pending then silent d c else record rest { chunks = e.chunks ++ rest.chunks }

-- `_flush_direction`: every round takes a pending segment, so their number is fuel enough.
unfoldable pub flush_direction : ℕ → FlowKey → ℕ → DirectionState → Counters → Emitted
flush_direction limit flow side d c = flush_rounds (length d.pending) limit flow side d c
