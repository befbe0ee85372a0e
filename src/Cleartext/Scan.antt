-- ===== src/Cleartext/Scan.antt =====
-- packet_audit/cleartext.py: the loop that the three scans share.
use packet_inspector_windows.Prelude.{
  ℕ, zero, suc, Option, none, some, List, [], ◌++◌, Bytes, length, ltb, if◌then◌else◌,
}
use packet_inspector_windows.Cleartext.Fields.{CleartextRecord}

-- What a round takes from a cursor on: the cursor behind the frame, and its records.
abbrev pub Step : Type 0
Step = ℕ × List CleartextRecord

-- What a scan returns: the records, and the end of the last frame that was taken whole.
abbrev pub Scanned : Type 0
Scanned = List CleartextRecord × ℕ

-- `while cursor < len(data)`, on fuel: a round moves the cursor on, so a round for each byte is
-- enough.
unfoldable pub scan_loop : ℕ → (Bytes → ℕ → Option Step) → Bytes → ℕ → Scanned
scan_loop zero step data_bytes cursor = ([], cursor)
scan_loop (suc n) step data_bytes cursor =
    if ltb cursor (length data_bytes)
    then elim (step data_bytes cursor) [
      | none ↦ ([], cursor)
      | some (end, records) ↦
          let (later, stop) = scan_loop n step data_bytes end in (records ++ later, stop)
    ]
    else ([], cursor)

unfoldable pub scan : (Bytes → ℕ → Option Step) → Bytes → Scanned
unfolding scan_loop
scan step data_bytes = scan_loop (length data_bytes) step data_bytes 0
