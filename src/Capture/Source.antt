-- ===== src/Capture/Source.antt =====
-- `_PcapySource` over the classic reader: `_timestamp_ns`, `_record`, `read_batch`, `packets` and
-- `close`.
use packet_inspector_windows.Prelude.{
  ℕ, zero, suc, ◌+◌, ◌*◌, Bool, true, false, not, ◌||◌, Option, none, some, List, [], ◌∷◌, ◌++◌,
  Bytes, Text, length, ltb, ◌==◌, if◌then◌else◌,
}
use packet_inspector_windows.Models.{CapturedPacket}
use packet_inspector_windows.Capture.Classic.{
  CaptureFault, mismatched_lengths, bad_limit, Outcome, ok, err, Precision, micro, nano,
  RecordHeader, Handle, next, close_handle, handle_stats,
}

-- `_timestamp_ns`
abbrev pub multiplier : Precision → ℕ
multiplier micro = 1000
multiplier nano = 1

unfoldable pub timestamp_ns : RecordHeader → ℕ
timestamp_ns header =
    header.seconds * 1000000000 + header.fraction * multiplier header.timestamp_precision

pub record PacketSource : Type 0 where
  pub handle : Handle
  pub interface : Text
  pub session_id : Text
  pub batch_size : ℕ
  pub offline : Bool
  pub datalink : ℕ
  pub packet_id : ℕ
  pub closed : Bool
  pub eof : Bool

-- `__init__`, with the session id that the caller gives or that is drawn.
unfoldable pub create : Handle → Text → Text → ℕ → Bool → Outcome PacketSource
create h interface session_id batch_size offline =
    if ltb batch_size 1
    then err bad_limit
    else ok (record {
      handle = h;
      interface = interface;
      session_id = session_id;
      batch_size = batch_size;
      offline = offline;
      datalink = h.datalink;
      packet_id = 0;
      closed = false;
      eof = false;
    })

abbrev pub packet_of : PacketSource → ℕ → RecordHeader → Bytes → CapturedPacket
packet_of s packet_id header raw = record {
  session_id = s.session_id;
  packet_id = packet_id;
  timestamp_ns = timestamp_ns header;
  interface = s.interface;
  datalink = s.datalink;
  captured_length = header.captured_length;
  wire_length = header.wire_length;
  raw = raw;
}

-- `_record`
unfoldable pub make_record :
    RecordHeader → Bytes → PacketSource → PacketSource × Outcome CapturedPacket
unfolding timestamp_ns
make_record header raw s =
    if not (header.captured_length == length raw) || ltb header.wire_length header.captured_length
    then (s, err mismatched_lengths)
    else (record s { packet_id = s.packet_id + 1 }, ok (packet_of s (s.packet_id + 1) header raw))

abbrev packed :
    PacketSource × Outcome CapturedPacket → PacketSource × Outcome (Option CapturedPacket)
packed (s, ok packet) = (s, ok (some packet))
packed (s, err fault) = (s, err fault)

-- What an item of `next` becomes; `ok none` breaks the loop.
unfoldable pub record_item :
    Outcome (Option (RecordHeader × Bytes))
    → PacketSource
    → PacketSource × Outcome (Option CapturedPacket)
unfolding make_record
record_item (err fault) s = (s, err fault)
record_item (ok none) s = (record s { eof = s.eof || s.offline }, ok none)
record_item (ok (some (header, raw))) s = packed (make_record header raw s)

unfoldable pub read_one : PacketSource → PacketSource × Outcome (Option CapturedPacket)
unfolding next record_item
read_one s = let (h, item) = next s.handle in record_item item (record s { handle = h })

abbrev followed_by : CapturedPacket → Outcome (List CapturedPacket) → Outcome (List CapturedPacket)
followed_by packet (ok later) = ok (packet ∷ later)
followed_by packet (err fault) = err fault

-- The batch from an item on, given what the rest of the loop does; an error loses it.
abbrev pub collect :
    Outcome (Option CapturedPacket)
    → PacketSource
    → PacketSource × Outcome (List CapturedPacket)
    → PacketSource × Outcome (List CapturedPacket)
collect (err fault) s rest = (s, err fault)
collect (ok none) s rest = (s, ok [])
collect (ok (some packet)) s (behind, later) = (behind, followed_by packet later)

-- `for _ in range(limit)`
unfoldable pub read_loop : ℕ → PacketSource → PacketSource × Outcome (List CapturedPacket)
unfolding read_one
read_loop zero s = (s, ok [])
read_loop (suc n) s =
    let (behind, item) = read_one s in let rest = read_loop n behind in collect item behind rest

abbrev limit_of : Option ℕ → ℕ → ℕ
limit_of none batch_size = batch_size
limit_of (some max_packets) batch_size = max_packets

-- `read_batch`
unfoldable pub read_batch : Option ℕ → PacketSource → PacketSource × Outcome (List CapturedPacket)
unfolding read_loop
read_batch max_packets s =
    let limit = limit_of max_packets s.batch_size in
    if s.closed || s.eof
    then (s, ok [])
    else if ltb limit 1
    then (s, err bad_limit)
    else read_loop limit s

-- What `packets` has yielded, and the error of the batch that raised.
abbrev pub Yielded : Type 0
Yielded = List CapturedPacket × Option CaptureFault

abbrev pub yield_from :
    Outcome (List CapturedPacket) → PacketSource → PacketSource × Yielded → PacketSource × Yielded
yield_from (err fault) s rest = (s, ([], some fault))
yield_from (ok batch) s (behind, (later, fault)) = (behind, (batch ++ later, fault))

-- `packets`, up to a number of batches.
unfoldable pub packets : ℕ → PacketSource → PacketSource × Yielded
unfolding read_batch
packets zero s = (s, ([], none))
packets (suc n) s =
    let (behind, batch) = read_batch none s in
    let rest = packets n behind in
    let more = yield_from batch behind rest in if s.closed || s.eof then (s, ([], none)) else more

-- `close`
unfoldable pub close : PacketSource → PacketSource
close s = if s.closed then s else record s { closed = true; handle = close_handle s.handle }

-- `CaptureStats`
pub record CaptureStats : Type 0 where
  pub received : Option ℕ
  pub dropped : Option ℕ
  pub interface_dropped : Option ℕ
  pub queued_for_capture : Option ℕ

-- `stats`, over the three values of the classic reader.
unfoldable pub stats : PacketSource → CaptureStats
unfolding handle_stats
stats s =
    let (received, dropped, interface_dropped) = handle_stats s.handle in
    record {
      received = some received;
      dropped = some dropped;
      interface_dropped = some interface_dropped;
      queued_for_capture = none;
    }
