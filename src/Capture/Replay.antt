-- ===== src/Capture/Replay.antt =====
-- Reading back a classic capture file: its records come out as packets, in order and numbered.
use packet_inspector_windows.Prelude.{
  ℕ, zero, suc, ◌+◌, ◌*◌, ◌≤◌, ◌<◌, ◌≡◌, refl, ap, ◌∙◌, arith, true, false, Option, none, some,
  List, [], ◌∷◌, ◌++◌, Bytes, Text, length, take, drop, ltb, ◌==◌, min, length-drop, Bool-cases,
  inl, inr,
}
use mathlib.Core.List.{append-nil}
use packet_inspector_windows.Models.{CapturedPacket}
use packet_inspector_windows.Capture.Classic.{
  Outcome, ok, err, Endian, Precision, micro, nano, Handle, safety_limit, open_handle,
}
use packet_inspector_windows.Capture.Source.{
  PacketSource, create, timestamp_ns, make_record, record_item, read_one, read_loop, read_batch,
  packets, yield_from, Yielded,
}
use packet_inspector_windows.Capture.Format.{
  PcapRecord, encode_records, IsRecord, AreRecords, reader, next-record, pcap_file,
  open_handle-pcap_file,
}

module _ (session_id interface : Text) (link : ℕ) (precision : Precision) where
  -- The packet that a record is, under a number.
  abbrev pub replayed : ℕ → PcapRecord → CapturedPacket
  replayed packet_id r = record {
    session_id = session_id;
    packet_id = packet_id;
    timestamp_ns =
        r.seconds * 1000000000 + r.fraction * (elim precision [ micro ↦ 1000 | nano ↦ 1 ]);
    interface = interface;
    datalink = link;
    captured_length = length r.data_bytes;
    wire_length = r.wire_length;
    raw = r.data_bytes;
  }

  -- The packets of records, numbered from the one behind `packet_id` on.
  abbrev pub numbered : ℕ → List PcapRecord → List CapturedPacket
  numbered packet_id [] = []
  numbered packet_id (r ∷ rs) = replayed (packet_id + 1) r ∷ numbered (packet_id + 1) rs

  take_all :
      (n packet_id : ℕ) (rs : List PcapRecord)
      → length rs ≤ n
      → take n (numbered packet_id rs) ≡ numbered packet_id rs
  take_all zero packet_id [] h = refl
  take_all zero packet_id (r ∷ rs) h = absurd (omega arith)
  take_all (suc n) packet_id [] h = refl
  take_all (suc n) packet_id (r ∷ rs) h =
      ap (λ ps. replayed (packet_id + 1) r ∷ ps) (take_all n (packet_id + 1) rs (omega arith))

  split_numbered :
      (n packet_id : ℕ) (rs : List PcapRecord)
      → n ≤ length rs
      → take n (numbered packet_id rs) ++ numbered (packet_id + n) (drop n rs)
        ≡ numbered packet_id rs
  split_numbered zero packet_id rs h = ap (λ i. numbered i rs) (omega arith)
  split_numbered (suc n) packet_id [] h = absurd (omega arith)
  split_numbered (suc n) packet_id (r ∷ rs) h =
      ap (λ ps. replayed (packet_id + 1) r ∷ ps)
        (ap (λ i. take n (numbered (packet_id + 1) rs) ++ numbered i (drop n rs)) (omega arith)
          ∙ split_numbered n (packet_id + 1) rs (omega arith))

module _ (e : Endian) (precision : Precision) (datalink snaplen : ℕ) where
  -- An open file with these records to read, under a source.
  abbrev pub at_records : PacketSource → ℕ → ℕ → List PcapRecord → PacketSource
  at_records s packet_id received rs = record s {
    handle = reader e precision datalink snaplen received (encode_records e rs);
    packet_id = packet_id;
  }

  read_one-record :
      (s : PacketSource) (packet_id received : ℕ) (r : PcapRecord) (rs : List PcapRecord)
      → IsRecord precision snaplen r
      → read_one (at_records s packet_id received (r ∷ rs)) ≡ (
        at_records s (packet_id + 1) (received + 1) rs,
        ok (some (replayed s.session_id s.interface s.datalink precision (packet_id + 1) r)),
      )
  unfolding read_one record_item make_record timestamp_ns
  read_one-record s packet_id received r rs valid =
      let exact : (length r.data_bytes == length r.data_bytes) ≡ true = ground arith in
      let whole : ltb r.wire_length (length r.data_bytes) ≡ false = ground arith in
      rw (next-record e precision datalink snaplen received r (encode_records e rs) valid)
        (rw (exact, whole) refl)

  -- A batch of up to `n` of them.
  read_loop-records :
      (n : ℕ) (s : PacketSource) (packet_id received : ℕ) (rs : List PcapRecord)
      → s.eof ≡ false
      → s.offline ≡ true
      → AreRecords precision snaplen rs
      → read_loop n (at_records s packet_id received rs) ≡ (
        record (at_records s
            (packet_id + min n (length rs))
            (received + min n (length rs))
            (drop n rs)) { eof = ltb (length rs) n },
        ok (take n (numbered s.session_id s.interface s.datalink precision packet_id rs)),
      )
  unfolding read_loop
  read_loop-records zero s packet_id received rs reading offline valid =
      let none_read : min 0 (length rs) ≡ 0 = omega arith in
      let more : ltb (length rs) 0 ≡ false = ground arith in
      let same_id : packet_id + 0 ≡ packet_id = omega arith in
      let same_count : received + 0 ≡ received = omega arith in
      rw (none_read, more, same_id, same_count, reading) refl
  read_loop-records (suc n) s packet_id received [] reading offline valid =
      let none_read : min (suc n) 0 ≡ 0 = omega arith in
      let ended : ltb 0 (suc n) ≡ true = ground arith in
      let same_id : packet_id + 0 ≡ packet_id = omega arith in
      let same_count : received + 0 ≡ received = omega arith in
      rw (none_read, ended, same_id, same_count, offline, reading) refl
  read_loop-records (suc n) s packet_id received (r ∷ rs) reading offline valid =
      let ids : packet_id + min (suc n) (suc (length rs)) ≡ packet_id + 1 + min n (length rs) =
        omega arith in
      let counts : received + min (suc n) (suc (length rs)) ≡ received + 1 + min n (length rs) =
        omega arith in
      let ends : ltb (suc (length rs)) (suc n) ≡ ltb (length rs) n = ground arith in
      rw
        (
          read_one-record s packet_id received r rs valid.0,
          read_loop-records n s (packet_id + 1) (received + 1) rs reading offline valid.1,
          ids,
          counts,
          ends,
        )
        refl

  AreRecords-drop :
      (n : ℕ) (rs : List PcapRecord)
      → AreRecords precision snaplen rs
      → AreRecords precision snaplen (drop n rs)
  AreRecords-drop zero rs valid = valid
  AreRecords-drop (suc n) [] valid = valid
  AreRecords-drop (suc n) (r ∷ rs) valid = AreRecords-drop n rs valid.1

  packets-ended : (m : ℕ) (s : PacketSource) → s.eof ≡ true → (packets m s).1 ≡ ([], none)
  unfolding packets
  packets-ended zero s ended = refl
  packets-ended (suc m) s ended = elim (Bool-cases s.closed) [
    | inl shut ↦ rw shut refl
    | inr going ↦ rw (going, ended) refl
  ]

  packets-going :
      (m : ℕ) (s : PacketSource)
      → s.closed ≡ false
      → s.eof ≡ false
      → packets (suc m) s
        ≡ yield_from (read_batch none s).1 (read_batch none s).0 (packets m (read_batch none s).0)
  unfolding packets
  packets-going m s going reading = rw (going, reading) refl

  read_batch-going :
      (s : PacketSource)
      → s.closed ≡ false
      → s.eof ≡ false
      → 0 < s.batch_size
      → read_batch none s ≡ read_loop s.batch_size s
  unfolding read_batch
  read_batch-going s going reading sized =
      let some_limit : ltb s.batch_size 1 ≡ false = ground arith in
      rw (going, reading, some_limit) refl

  -- A batch of the source's own size, and the source behind it.
  abbrev yielded : PacketSource → ℕ → List PcapRecord → List CapturedPacket
  yielded s packet_id rs =
      take s.batch_size (numbered s.session_id s.interface s.datalink precision packet_id rs)

  abbrev behind_batch : PacketSource → ℕ → ℕ → List PcapRecord → PacketSource
  behind_batch s packet_id received rs =
      at_records (record s { eof = ltb (length rs) s.batch_size })
        (packet_id + min s.batch_size (length rs)) (received + min s.batch_size (length rs))
        (drop s.batch_size rs)

  -- Batch after batch, to the end of the file.
  packets-records :
      (m : ℕ) (s : PacketSource) (packet_id received : ℕ) (rs : List PcapRecord)
      → s.closed ≡ false
      → s.eof ≡ false
      → s.offline ≡ true
      → 0 < s.batch_size
      → length rs < m
      → AreRecords precision snaplen rs
      → (packets m (at_records s packet_id received rs)).1
        ≡ (numbered s.session_id s.interface s.datalink precision packet_id rs, none)
  packets-records zero s packet_id received rs going reading offline sized enough valid =
      absurd (omega arith)
  packets-records (suc m) s packet_id received rs going reading offline sized enough valid =
      let batch =
        read_batch-going (at_records s packet_id received rs) going reading sized
        ∙ read_loop-records s.batch_size s packet_id received rs reading offline valid in
      rw (packets-going m (at_records s packet_id received rs) going reading, batch)
        (elim (Bool-cases (ltb (length rs) s.batch_size)) [
          | inl ended ↦
              ap (λ y. (yielded s packet_id rs ++ y.0, y.1))
                (packets-ended m (behind_batch s packet_id received rs) ended)
              ∙ ap (λ ps. (ps, none))
                  (append-nil (yielded s packet_id rs)
                    ∙ take_all s.session_id s.interface s.datalink precision s.batch_size packet_id
                        rs (ground arith))
          | inr more ↦
              let whole : min s.batch_size (length rs) ≡ s.batch_size = ground arith in
              ap (λ y. (yielded s packet_id rs ++ y.0, y.1))
                (packets-records m (record s { eof = ltb (length rs) s.batch_size })
                  (packet_id + min s.batch_size (length rs))
                  (received + min s.batch_size (length rs)) (drop s.batch_size rs) going more
                  offline sized (ground (arith, length-drop s.batch_size rs))
                  (AreRecords-drop s.batch_size rs valid))
              ∙ ap
                  (λ i. (
                    yielded s packet_id rs
                        ++ numbered s.session_id s.interface s.datalink precision i
                            (drop s.batch_size rs),
                    none,
                  ))
                  (ap (λ i. packet_id + i) whole)
              ∙ ap (λ ps. (ps, none))
                  (split_numbered s.session_id s.interface s.datalink precision s.batch_size
                    packet_id rs (ground arith))
        ])

-- What comes of a capture file that is opened and read to its end, in batches.
abbrev pub replay_from : ℕ → Outcome PacketSource → Outcome Yielded
replay_from m (err fault) = err fault
replay_from m (ok s) = ok ((packets m s).1)

abbrev pub open_source : Text → Text → ℕ → Outcome Handle → Outcome PacketSource
open_source interface session_id batch_size (err fault) = err fault
open_source interface session_id batch_size (ok h) = create h interface session_id batch_size true

abbrev pub replay : Text → Text → ℕ → ℕ → Option Bytes → Outcome Yielded
replay interface session_id batch_size m content =
    replay_from m (open_source interface session_id batch_size (open_handle content))

-- A version 2.4 capture file, in either byte order and precision, with a snapshot length within
-- the safety limit and records that fit it, is read back whole: whatever the batch size, one
-- batch more than there are records is enough for `packets` to yield one packet for each record,
-- in order and numbered from 1, with the record's bytes, lengths and time, and no error.
pub replay-pcap_file :
    (e : Endian) (precision : Precision) (datalink snaplen : ℕ) (rs : List PcapRecord)
    (interface session_id : Text) (batch_size m : ℕ)
    → 0 < snaplen
    → snaplen ≤ safety_limit
    → AreRecords precision snaplen rs
    → 0 < batch_size
    → length rs < m
    → replay interface session_id batch_size m (some (pcap_file e precision datalink snaplen rs))
      ≡ ok (numbered session_id interface datalink precision 0 rs, none)
unfolding create
replay-pcap_file e precision datalink snaplen rs interface session_id batch_size m low high valid
      sized enough =
    let some_limit : ltb batch_size 1 ≡ false = ground arith in
    rw (open_handle-pcap_file e precision datalink snaplen rs low high, some_limit)
      (ap (λ y. ok y)
        (packets-records e precision datalink snaplen m
          (record {
            handle = reader e precision datalink snaplen 0 (encode_records e rs);
            interface = interface;
            session_id = session_id;
            batch_size = batch_size;
            offline = true;
            datalink = datalink;
            packet_id = 0;
            closed = false;
            eof = false;
          })
          0 0 rs refl refl refl sized enough valid))
