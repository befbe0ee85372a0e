-- ===== src/Capture/Format.antt =====
-- Classic capture files as bytes, and how `_ClassicPcapHandle` opens one and reads a record of it.
use packet_inspector_windows.Prelude.{
  ℕ, ◌+◌, ◌/◌, ◌%◌, ◌≤◌, ◌<◌, ◌≡◌, refl, ap, ◌∙◌, arith, true, false, some, List, [], ◌∷◌, ◌++◌,
  Bytes, length, take, drop, ltb, leb, ◌==◌, eq_list, is_nil,
}
use packet_inspector_windows.Capture.Classic.{
  ok, Endian, little, big, Precision, micro, nano, RecordHeader, Handle, int_of, field,
  fraction_limit, safety_limit, next, next_data, header_of, open_handle, open_with,
}

-- A number of two or four bytes.
abbrev pub pack2 : Endian → ℕ → Bytes
pack2 little n = n % 256 ∷ n / 256 ∷ []
pack2 big n = n / 256 ∷ n % 256 ∷ []

abbrev pub pack4 : Endian → ℕ → Bytes
pack4 little n = n % 256 ∷ n / 256 % 256 ∷ n / 65536 % 256 ∷ n / 16777216 ∷ []
pack4 big n = n / 16777216 ∷ n / 65536 % 256 ∷ n / 256 % 256 ∷ n % 256 ∷ []

pub int_of-pack4 : (e : Endian) (n : ℕ) → int_of e (pack4 e n) ≡ n
int_of-pack4 little n = omega arith
int_of-pack4 big n = omega arith

-- A record of a capture file.
pub record PcapRecord : Type 0 where
  pub seconds : ℕ
  pub fraction : ℕ
  pub wire_length : ℕ
  pub data_bytes : Bytes

abbrev pub encode_record : Endian → PcapRecord → Bytes
encode_record e r =
    pack4 e r.seconds
    ++ pack4 e r.fraction
    ++ pack4 e (length r.data_bytes)
    ++ pack4 e r.wire_length
    ++ r.data_bytes

abbrev pub encode_records : Endian → List PcapRecord → Bytes
encode_records e [] = []
encode_records e (r ∷ rs) = encode_record e r ++ encode_records e rs

-- What the format asks of a record, under a snapshot length.
abbrev pub IsRecord : Precision → ℕ → PcapRecord → Type 0
IsRecord precision snaplen r =
    (r.fraction < fraction_limit precision)
    × (length r.data_bytes ≤ snaplen)
    × (length r.data_bytes ≤ safety_limit)
    × (length r.data_bytes ≤ r.wire_length)

abbrev pub AreRecords : Precision → ℕ → List PcapRecord → Type 0
AreRecords precision snaplen [] = Unit
AreRecords precision snaplen (r ∷ rs) =
    IsRecord precision snaplen r × AreRecords precision snaplen rs

abbrev pub header_for : Precision → PcapRecord → RecordHeader
header_for precision r = record {
  seconds = r.seconds;
  fraction = r.fraction;
  captured_length = length r.data_bytes;
  wire_length = r.wire_length;
  timestamp_precision = precision;
}

take_front : (xs ys : Bytes) → take (length xs) (xs ++ ys) ≡ xs
take_front [] ys = refl
take_front (x ∷ xs) ys = ap (λ zs. x ∷ zs) (take_front xs ys)

drop_front : (xs ys : Bytes) → drop (length xs) (xs ++ ys) ≡ ys
drop_front [] ys = refl
drop_front (x ∷ xs) ys = drop_front xs ys

fields :
    (e : Endian) (r : PcapRecord) (rest : Bytes)
    → (field e 0 4 (take 16 (encode_record e r ++ rest)) ≡ r.seconds)
      × (field e 4 4 (take 16 (encode_record e r ++ rest)) ≡ r.fraction)
      × (field e 8 4 (take 16 (encode_record e r ++ rest)) ≡ length r.data_bytes)
      × (field e 12 4 (take 16 (encode_record e r ++ rest)) ≡ r.wire_length)
fields little r rest = (
  int_of-pack4 little r.seconds,
  int_of-pack4 little r.fraction,
  int_of-pack4 little (length r.data_bytes),
  int_of-pack4 little r.wire_length,
)
fields big r rest = (
  int_of-pack4 big r.seconds,
  int_of-pack4 big r.fraction,
  int_of-pack4 big (length r.data_bytes),
  int_of-pack4 big r.wire_length,
)

record_front :
    (e : Endian) (r : PcapRecord) (rest : Bytes)
    → (length (take 16 (encode_record e r ++ rest)) ≡ 16)
      × (is_nil (take 16 (encode_record e r ++ rest)) ≡ false)
      × (drop 16 (encode_record e r ++ rest) ≡ r.data_bytes ++ rest)
record_front little r rest = (refl, refl, refl)
record_front big r rest = (refl, refl, refl)

module _ (e : Endian) (precision : Precision) (datalink snaplen : ℕ) where
  -- An open file with these bytes to read.
  abbrev pub reader : ℕ → Bytes → Handle
  reader received unread = record {
    unread = unread;
    endian = e;
    precision = precision;
    datalink = datalink;
    snaplen = snaplen;
    received = received;
    closed = false;
  }

  next_data-record :
      (received : ℕ) (r : PcapRecord) (rest : Bytes)
      → IsRecord precision snaplen r
      → next_data (header_for precision r) (reader received (r.data_bytes ++ rest))
        ≡ (reader (received + 1) rest, ok (some (header_for precision r, r.data_bytes)))
  unfolding next_data
  next_data-record received r rest valid =
      let in_time : leb (fraction_limit precision) r.fraction ≡ false = ground (arith, valid.0) in
      let fits : ltb snaplen (length r.data_bytes) ≡ false = ground arith in
      let safe : ltb safety_limit (length r.data_bytes) ≡ false = ground arith in
      let whole : ltb r.wire_length (length r.data_bytes) ≡ false = ground arith in
      let read : (length r.data_bytes == length r.data_bytes) ≡ true = ground arith in
      rw
        (
          in_time,
          fits,
          safe,
          whole,
          take_front r.data_bytes rest,
          drop_front r.data_bytes rest,
          read,
        )
        refl

  header_of-record :
      (received : ℕ) (r : PcapRecord) (rest unread : Bytes)
      → header_of (reader received unread) (take 16 (encode_record e r ++ rest))
        ≡ header_for precision r
  header_of-record received r rest unread =
      let (a, b, c, d) = fields e r rest in rw (a, b, c, d) refl

  pub next-record :
      (received : ℕ) (r : PcapRecord) (rest : Bytes)
      → IsRecord precision snaplen r
      → next (reader received (encode_record e r ++ rest))
        ≡ (reader (received + 1) rest, ok (some (header_for precision r, r.data_bytes)))
  unfolding next
  next-record received r rest valid =
      let (size, filled, behind) = record_front e r rest in
      rw (filled, size, behind)
        (ap (λ header. next_data header (reader received (r.data_bytes ++ rest)))
            (header_of-record received r rest (r.data_bytes ++ rest))
          ∙ next_data-record received r rest valid)

abbrev pub magic_bytes : Endian → Precision → Bytes
magic_bytes little micro = 0xD4 ∷ 0xC3 ∷ 0xB2 ∷ 0xA1 ∷ []
magic_bytes big micro = 0xA1 ∷ 0xB2 ∷ 0xC3 ∷ 0xD4 ∷ []
magic_bytes little nano = 0x4D ∷ 0x3C ∷ 0xB2 ∷ 0xA1 ∷ []
magic_bytes big nano = 0xA1 ∷ 0xB2 ∷ 0x3C ∷ 0x4D ∷ []

-- A classic capture file, version 2.4.
abbrev pub pcap_file : Endian → Precision → ℕ → ℕ → List PcapRecord → Bytes
pcap_file e precision datalink snaplen rs =
    magic_bytes e precision
    ++ pack2 e 2
    ++ pack2 e 4
    ++ pack4 e 0
    ++ pack4 e 0
    ++ pack4 e snaplen
    ++ pack4 e datalink
    ++ encode_records e rs

pub open_handle-pcap_file :
    (e : Endian) (precision : Precision) (datalink snaplen : ℕ) (rs : List PcapRecord)
    → 0 < snaplen
    → snaplen ≤ safety_limit
    → open_handle (some (pcap_file e precision datalink snaplen rs))
      ≡ ok (reader e precision datalink snaplen 0 (encode_records e rs))
unfolding open_handle open_with eq_list
open_handle-pcap_file little micro datalink snaplen rs low high =
    let some_length : ltb snaplen 1 ≡ false = ground arith in
    let safe : ltb safety_limit snaplen ≡ false = ground arith in
    rw (int_of-pack4 little snaplen, int_of-pack4 little datalink, some_length, safe) refl
open_handle-pcap_file big micro datalink snaplen rs low high =
    let some_length : ltb snaplen 1 ≡ false = ground arith in
    let safe : ltb safety_limit snaplen ≡ false = ground arith in
    rw (int_of-pack4 big snaplen, int_of-pack4 big datalink, some_length, safe) refl
open_handle-pcap_file little nano datalink snaplen rs low high =
    let some_length : ltb snaplen 1 ≡ false = ground arith in
    let safe : ltb safety_limit snaplen ≡ false = ground arith in
    rw (int_of-pack4 little snaplen, int_of-pack4 little datalink, some_length, safe) refl
open_handle-pcap_file big nano datalink snaplen rs low high =
    let some_length : ltb snaplen 1 ≡ false = ground arith in
    let safe : ltb safety_limit snaplen ≡ false = ground arith in
    rw (int_of-pack4 big snaplen, int_of-pack4 big datalink, some_length, safe) refl
