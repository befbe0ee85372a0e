-- ===== src/Fragments/Assembly.antt =====
-- What a completed datagram holds: the bytes of its fragments, each at its offset.
use packet_inspector_windows.Prelude.{
  ℕ, ◌-◌, ◌≤◌, ◌≡◌, refl, sym, ◌∙◌, inl, inr, true, Option, none, some, List, [], ◌∷◌, ◌++◌, Bytes,
  arith, length, get_elem?, ltb, or_else, if◌then◌else◌, Bool-cases, get_elem?-append,
  get_elem?_out, get_elem?_in, length-append, list_ext,
}
use packet_inspector_windows.Segments.{Segment, end_of}
use packet_inspector_windows.Segments.Cover.{byte_in, byte_at, covers, byte_in_uncovered}
use packet_inspector_windows.Fragments.State.{fragment_keys}
use packet_inspector_windows.Fragments.Process.{assembled, assemble_from, assemble}

-- A covered position is read in the segment that covers it.
or_else_in :
    (s : Segment (Unit {0})) (o : Option ℕ) (i : ℕ)
    → covers s i ≡ true
    → or_else (byte_in s i) o ≡ get_elem? s.bytes (i - s.start)
unfolding byte_in
or_else_in s o i c =
    let (b, found) = get_elem?_in s.bytes (i - s.start) (ground arith) in ground arith

-- The loop reads off the ranges, behind what it has read before.
assemble_from-reads :
    (cursor : ℕ) (done : Bytes) (final_end : ℕ) (items : List (Segment (Unit {0})))
    {payload : Bytes} (i : ℕ)
    → length done ≡ cursor
    → cursor ≤ final_end
    → assemble_from cursor done final_end items ≡ assembled payload
    → (length payload ≡ final_end)
      × (get_elem? payload i ≡ (
          if ltb i cursor
          then get_elem? done i
          else if ltb i final_end
          then byte_at items i
          else none))
unfolding assemble_from byte_at
assemble_from-reads cursor done final_end [] {payload} i l le h =
    ground (arith, get_elem?_out done i)
assemble_from-reads cursor done final_end (item ∷ items) {payload} i l le h = ground (
  arith,
  assemble_from-reads (end_of item) (done ++ item.bytes) final_end items {payload = payload} i,
  length-append done item.bytes,
  get_elem?-append done item.bytes i,
  byte_in_uncovered item i,
  or_else_in item (byte_at items i) i,
  get_elem?_out (done ++ item.bytes) i,
)

-- The payload that the ranges make up, if they make up one, has the declared length, and at each
-- position below it the byte that is stored for it.
pub assemble_lem :
    (final_end : ℕ) (ranges : List (Segment (Unit {0}))) (payload : Bytes)
    → assemble final_end ranges ≡ assembled payload
    → (length payload ≡ final_end)
      × ((i : ℕ) → get_elem? payload i ≡ (if ltb i final_end then byte_at ranges i else none))
unfolding assemble
assemble_lem final_end ranges payload h = (
  (assemble_from-reads 0 [] final_end ranges 0 refl (omega arith) h).0,
  λ i. ground (arith, assemble_from-reads 0 [] final_end ranges {payload = payload} i),
)

-- All stored bytes are those of one datagram.
abbrev pub Consistent : Bytes → List (Segment (Unit {0})) → Type 0
Consistent datagram ranges = (i b : ℕ) → byte_at ranges i ≡ some b → get_elem? datagram i ≡ some b

-- Ranges that hold bytes of a datagram alone assemble, up to its length, to that datagram.
pub assemble-Consistent :
    (datagram payload : Bytes) (ranges : List (Segment (Unit {0})))
    → Consistent datagram ranges
    → assemble (length datagram) ranges ≡ assembled payload
    → payload ≡ datagram
assemble-Consistent datagram payload ranges c h =
    let (size, reads) = assemble_lem (length datagram) ranges payload h in
    list_ext payload datagram (λ i. elim (Bool-cases (ltb i (length datagram))) [
      | inl inside ↦
          let (b, found) = get_elem?_in payload i (ground arith) in
          let stored : byte_at ranges i ≡ some b = ground (arith, reads i, found) in
          found ∙ sym (c i b stored)
      | inr outside ↦
          get_elem?_out payload i (ground arith) ∙ sym (get_elem?_out datagram i (ground arith))
    ])
