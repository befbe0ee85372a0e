-- ===== src/Lib.antt =====
-- A model of packet_audit, a capture and audit tool for cleartext protocols, and proofs about it.
--
-- A capture source reads records and numbers them. The packet decoder turns a record into a parsed
-- packet. Fragments go to the fragment reassembler, which hands whole datagrams back to the decoder.
-- TCP segments go to the TCP reassembler, which emits the bytes of each direction as chunks, for the
-- detectors, among them the recognizers of Redis and PostgreSQL credentials. The main process tells the service manager about its progress.
--
-- - Prelude: the shared names, Boolean tests on native numbers, byte strings as lists of numbers,
--   and integers for sequence positions. OrderedDict: Python's OrderedDict as an association list,
--   oldest entry first.
-- - Models: packet_audit/models.py. Texts are lists of code points.
-- - Segments: the interval routines of packet_audit/reassembly.py (_uncovered_byte_ranges,
--   _tcp_uncovered_segments, _merge_adjacent_byte_ranges, _has_conflicting_overlap), with what a
--   list of segments holds at a position as their specification (Segments/Cover). Python's sort is
--   insertion behind equal keys.
-- - Packets: packet_audit/packets.py. A decoder returns a value or a fault: PacketDecodeError with
--   its message, or what Python raises on an index or a field out of range. The text of an address,
--   which the ipaddress module makes, is a parameter (AddressText).
-- - Fragments: FragmentReassembler of packet_audit/reassembly.py, a state and an outcome for each
--   call: State and Process are the code, Assembly, Whole, Collected, Datagram and Delivery are about what
--   is handed on, Accounting, Evicted, Bounded, Opened, Budget, Spread, Sized and Lifetime about the limits.
--   Tcp: TCPReassembler of the same file; a call returns the new state and the chunks.
-- - Capture: _ClassicPcapHandle and _PcapySource of packet_audit/capture.py, over a file that is the
--   list of its unread bytes. Capture/Format is the file format that the replay theorem reads back.
-- - Ntlm: packet_audit/ntlm_wrappers.py, unwrap_ntlm in Ntlm, smb2_header_seen in Ntlm/Smb and
--   smb2_session_for_token, with its 64 rounds, in Ntlm/Session, and its tests of a header in
--   Ntlm/Enclosing. None and the ValueError of an unpacking are values.
-- - Cleartext: packet_audit/cleartext.py. None is none of Option; a record's material has a
--   constructor for each kind. Fields has the limits and the decimal line, Redis and Postgres the
--   frames of each protocol, Scan the loop that the three scans share (step is the body of the loop),
--   Requests their callers. UTF-8 decoding is a parameter. Progress, Prefix, RedisFrames,
--   PostgresFrames and PostgresScan are the proofs; RedisWire has the text that a client writes.
-- - Http: _chunked of packet_audit/http_forms.py. The regular expression of a chunk size is a test of
--   its digits. Http/Chunks has the code, Http/Spans and Http/Body the proofs.
-- - Watchdog: ServiceWatchdog of packet_audit/service_watchdog.py.
-- - Examples, Samples, Runs: tests, and the theorems at concrete inputs.
--
-- Time: what time.monotonic_ns and time.monotonic read is an argument of each call. Python's integers
-- are natural numbers where the code keeps them so, and integers in _unwrap_sequence and what
-- compares its result.
--
-- Fuel: _evict_to_limits, the eviction loops and the overflow loop of the TCP reassembler and
-- _flush_direction run on fuel. Each round removes a state, a flow or a pending segment, so the
-- number of these is given. A scan of Cleartext has a round for each byte, and an inline Redis command
-- one for each byte of its line, since each takes a byte at least; so have _chunked
-- and smb2_header_seen. packets takes the number of batches to read.
--
-- Not modelled: the standard library, sockets, files and processes; capture through pcapy-ng and
-- Npcap; the choice of the reassemblers' limits from keywords, configuration and defaults (create
-- takes the finished ones); a service notification that is sent in part; the StopIteration that an
-- eviction from an empty dictionary would raise, which its limits rule out; the detectors, HTTP
-- messages around _chunked, form fields and transfers, worker, supervisor, writer, configuration,
-- command line, dashboard and Windows glue.
pub mod Prelude
pub mod OrderedDict
pub mod Models
pub mod Segments
pub mod Packets
pub mod Fragments
pub mod Tcp
pub mod Examples
pub mod Capture
pub mod Watchdog
pub mod Samples
pub mod Runs
pub mod Ntlm
pub mod Cleartext
pub mod Http
