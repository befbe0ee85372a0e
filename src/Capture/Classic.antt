-- ===== src/Capture/Classic.antt =====
-- `_ClassicPcapHandle`, the reader of classic capture files. The file is the list of its bytes that
-- are not read yet; a short read happens at its end only.
use packet_inspector_windows.Prelude.{
  ℕ, ◌+◌, ◌*◌, Bool, true, false, not, ◌||◌, Option, none, some, [], ◌∷◌, Bytes, length, take, drop,
  ltb, leb, ◌==◌, eq_list, is_nil, if◌then◌else◌,
}

-- The messages of `CaptureError`, and of the `ValueError`s of the batching.
pub data CaptureFault : Type 0 where
  unable_to_open short_global_header pcapng_unavailable unknown_magic : CaptureFault
  unsupported_version unsafe_snaplen inside_packet_header invalid_fraction : CaptureFault
  too_long shorter_wire_length inside_packet_data mismatched_lengths bad_limit : CaptureFault

pub data Outcome {ℓ} (A : Type ℓ) : Type ℓ where
  ok : A → Outcome A
  err : CaptureFault → Outcome A

pub data Endian : Type 0 where
  little big : Endian

pub data Precision : Type 0 where
  micro nano : Precision

-- The number in a byte string, as `struct.unpack` reads it.
abbrev pub little_value : Bytes → ℕ
little_value [] = 0
little_value (b ∷ bytes) = b + 256 * little_value bytes

abbrev pub big_value : ℕ → Bytes → ℕ
big_value high [] = high
big_value high (b ∷ bytes) = big_value (high * 256 + b) bytes

abbrev pub int_of : Endian → Bytes → ℕ
int_of little bytes = little_value bytes
int_of big bytes = big_value 0 bytes

-- The field of a number of bytes at an offset.
abbrev pub field : Endian → ℕ → ℕ → Bytes → ℕ
field endian offset size bytes = int_of endian (take size (drop offset bytes))

-- `_ClassicPcapHeader`; `timestamp_precision` is "micro" or "nano".
pub record RecordHeader : Type 0 where
  pub seconds : ℕ
  pub fraction : ℕ
  pub captured_length : ℕ
  pub wire_length : ℕ
  pub timestamp_precision : Precision

pub record Handle : Type 0 where
  pub unread : Bytes
  pub endian : Endian
  pub precision : Precision
  pub datalink : ℕ
  pub snaplen : ℕ
  pub received : ℕ
  pub closed : Bool

-- `_MAGIC.get(header[:4])`
abbrev pub magic : Bytes → Option (Endian × Precision)
magic bytes =
    if eq_list bytes (0xD4 ∷ 0xC3 ∷ 0xB2 ∷ 0xA1 ∷ [])
    then some (little, micro)
    else if eq_list bytes (0xA1 ∷ 0xB2 ∷ 0xC3 ∷ 0xD4 ∷ [])
    then some (big, micro)
    else if eq_list bytes (0x4D ∷ 0x3C ∷ 0xB2 ∷ 0xA1 ∷ [])
    then some (little, nano)
    else if eq_list bytes (0xA1 ∷ 0xB2 ∷ 0x3C ∷ 0x4D ∷ [])
    then some (big, nano)
    else none

abbrev pub safety_limit : ℕ
safety_limit = 16777216

-- `__init__` behind the test of the magic value.
unfoldable pub open_with : Option (Endian × Precision) → Bytes → Bytes → Outcome Handle
open_with none header body = err unknown_magic
open_with (some (endian, precision)) header body =
    let snaplen = field endian 16 4 header in
    if not (field endian 4 2 header == 2) || not (field endian 6 2 header == 4)
    then err unsupported_version
    else if ltb snaplen 1 || ltb safety_limit snaplen
    then err unsafe_snaplen
    else ok (record {
      unread = body;
      endian = endian;
      precision = precision;
      datalink = field endian 20 4 header;
      snaplen = snaplen;
      received = 0;
      closed = false;
    })

-- `__init__`, on the content of the file, where it opens.
unfoldable pub open_handle : Option Bytes → Outcome Handle
unfolding open_with
open_handle none = err unable_to_open
open_handle (some content) =
    let header = take 24 content in
    if not (length header == 24)
    then err short_global_header
    else if eq_list (take 4 header) (0x0A ∷ 0x0D ∷ 0x0D ∷ 0x0A ∷ [])
    then err pcapng_unavailable
    else open_with (magic (take 4 header)) header (drop 24 content)

abbrev pub fraction_limit : Precision → ℕ
fraction_limit micro = 1000000
fraction_limit nano = 1000000000

abbrev pub header_of : Handle → Bytes → RecordHeader
header_of h header = record {
  seconds = field h.endian 0 4 header;
  fraction = field h.endian 4 4 header;
  captured_length = field h.endian 8 4 header;
  wire_length = field h.endian 12 4 header;
  timestamp_precision = h.precision;
}

-- `next` behind the read of a whole record header.
unfoldable pub next_data : RecordHeader → Handle → Handle × Outcome (Option (RecordHeader × Bytes))
next_data header h =
    let bytes = take header.captured_length h.unread in
    let behind = record h { unread = drop header.captured_length h.unread } in
    if leb (fraction_limit h.precision) header.fraction
    then (h, err invalid_fraction)
    else if ltb h.snaplen header.captured_length || ltb safety_limit header.captured_length
    then (h, err too_long)
    else if ltb header.wire_length header.captured_length
    then (h, err shorter_wire_length)
    else if not (length bytes == header.captured_length)
    then (behind, err inside_packet_data)
    else (record behind { received = h.received + 1 }, ok (some (header, bytes)))

-- `next`; `(None, None)` is `ok none`.
unfoldable pub next : Handle → Handle × Outcome (Option (RecordHeader × Bytes))
unfolding next_data
next h =
    let header = take 16 h.unread in
    let behind = record h { unread = drop 16 h.unread } in
    if h.closed
    then (h, ok none)
    else if is_nil header
    then (behind, ok none)
    else if not (length header == 16)
    then (behind, err inside_packet_header)
    else next_data (header_of h header) behind

-- `close`
unfoldable pub close_handle : Handle → Handle
close_handle h = record h { closed = true }

-- `stats`
unfoldable pub handle_stats : Handle → ℕ × ℕ × ℕ
handle_stats h = (h.received, 0, 0)
