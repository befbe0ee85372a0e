-- ===== src/Cleartext/Prefix.antt =====
-- Reading the bytes so far, of data to which more is added: the line end, the decimal line and the
-- bulk string of the recognizers.
use packet_inspector_windows.Prelude.{
  and-true, ℕ, zero, suc, ◌+◌, ◌-◌, ◌≤◌, ◌<◌, ◌≡◌, refl, ap, sym, ◌∙◌, Bool, true, false, inl, inr,
  Option, none, some, [], ◌∷◌, ◌++◌, Bytes, arith, length, get_elem?, slice, take, drop, ltb, leb,
  eq_list, length-append, length-drop, length-take, get_elem?-append, get_elem?_out, Bool-cases,
  if◌then◌else◌,
}
use packet_inspector_windows.Cleartext.Fields.{
  require, ◌>>=◌, is_crlf, find_crlf, read_decimal, decimal_line,
}
use packet_inspector_windows.Cleartext.Redis.{bulk_string, ends_bulk, crlf}

pub bind-some {ℓ κ} :
    {A : Type ℓ} {B : Type κ} (o : Option A) (f : A → Option B) (b : B)
    → (o >>= f) ≡ some b
    → (a : A) × (o ≡ some a) × (f a ≡ some b)
unfolding ◌>>=◌
bind-some none f b h = absurd (cc h)
bind-some (some a) f b h = (a, refl, h)

pub require-some {ℓ} :
    {A : Type ℓ} (test : Bool) (o : Option A) (a : A)
    → require test o ≡ some a
    → (test ≡ true) × (o ≡ some a)
unfolding require
require-some false o a h = absurd (cc h)
require-some true o a h = (refl, h)

pub require-value {ℓ} :
    {A : Type ℓ} (test : Bool) (a b : A) → require test (some a) ≡ some b → (test ≡ true) × (a ≡ b)
unfolding require
require-value false a b h = absurd (cc h)
require-value true a b h = (refl, cc h)

take-prefix : (n : ℕ) (xs ys : Bytes) → n ≤ length xs → take n (xs ++ ys) ≡ take n xs
take-prefix zero xs ys h = refl
take-prefix (suc n) [] ys h = absurd (omega arith)
take-prefix (suc n) (x ∷ xs) ys h = ap (λ zs. x ∷ zs) (take-prefix n xs ys (omega arith))

drop-prefix : (n : ℕ) (xs ys : Bytes) → n ≤ length xs → drop n (xs ++ ys) ≡ drop n xs ++ ys
drop-prefix zero xs ys h = refl
drop-prefix (suc n) [] ys h = absurd (omega arith)
drop-prefix (suc n) (x ∷ xs) ys h = drop-prefix n xs ys (omega arith)

pub length-slice : (xs : Bytes) (i j : ℕ) → i ≤ j → j ≤ length xs → length (slice xs i j) ≡ j - i
length-slice xs i j le h = omega (arith, length-take (j - i) (drop i xs), length-drop i xs)

module _ (data_bytes more : Bytes) where
  pub get_elem?-prefix :
      (i : ℕ) → i < length data_bytes → get_elem? (data_bytes ++ more) i ≡ get_elem? data_bytes i
  get_elem?-prefix i h =
      let inside : ltb i (length data_bytes) ≡ true = ground arith in
      get_elem?-append data_bytes more i
      ∙ ap (λ b. if b then get_elem? data_bytes i else get_elem? more (i - length data_bytes))
          inside

  pub slice-prefix :
      (i j : ℕ) → j ≤ length data_bytes → slice (data_bytes ++ more) i j ≡ slice data_bytes i j
  slice-prefix i j h = elim (Bool-cases (leb i j)) [
    | inl le ↦
        ap (take (j - i)) (drop-prefix i data_bytes more (ground arith))
        ∙ take-prefix (j - i) (drop i data_bytes) more (ground (arith, length-drop i data_bytes))
    | inr gt ↦ let none_read : j - i ≡ 0 = ground arith in rw none_read refl
  ]

  crlf_inside : (i : ℕ) → is_crlf data_bytes i ≡ true → i + 2 ≤ length data_bytes
  crlf_inside i h = elim (Bool-cases (leb (i + 2) (length data_bytes))) [
    | inl le ↦ ground arith
    | inr gt ↦ let out = get_elem?_out data_bytes (i + 1) (ground arith) in ground (arith, out, h)
  ]

  crlf-prefix :
      (i : ℕ) → i + 2 ≤ length data_bytes → is_crlf (data_bytes ++ more) i ≡ is_crlf data_bytes i
  crlf-prefix i h =
      rw (get_elem?-prefix i (omega arith), get_elem?-prefix (i + 1) (omega arith)) refl

  -- The line end is found again, by any number of tries that is not less.
  pub find_crlf-prefix :
      (n m i end : ℕ)
      → n ≤ m
      → find_crlf n data_bytes i ≡ some end
      → (i ≤ end)
        × (end < i + n)
        × (end + 2 ≤ length data_bytes)
        × (find_crlf m (data_bytes ++ more) i ≡ some end)
  unfolding find_crlf
  find_crlf-prefix zero m i end le h = absurd (cc h)
  find_crlf-prefix (suc n) zero i end le h = absurd (omega arith)
  find_crlf-prefix (suc n) (suc m) i end le h = elim (Bool-cases (is_crlf data_bytes i)) [
    | inl here ↦
        let inside = crlf_inside i here in
        let same : i ≡ end = ground arith in
        (omega arith, omega arith, omega arith, rw (crlf-prefix i inside, here) (ap some same))
    | inr not_here ↦
        let (later, before, inside, found) =
          find_crlf-prefix n m (i + 1) end (omega arith) (rw not_here at h) in
        (omega arith, omega arith, inside, rw (crlf-prefix i (omega arith), not_here) found)
  ]

  read_decimal-end : (raw : Bytes) (end v e : ℕ) → read_decimal raw end ≡ some (v, e) → e ≡ end + 2
  unfolding read_decimal
  read_decimal-end raw end v e h =
      let (_, same) = require-value _ _ (v, e) h in ap (λ (read : ℕ × ℕ). read.1) (sym same)

  pub decimal_line-prefix :
      (start v e : ℕ)
      → decimal_line data_bytes start ≡ some (v, e)
      → (start < e)
        × (e ≤ length data_bytes)
        × (decimal_line (data_bytes ++ more) start ≡ some (v, e))
  unfolding decimal_line ◌>>=◌
  decimal_line-prefix start v e h =
      let (end, found, read) = bind-some (find_crlf 12 data_bytes start) _ (v, e) h in
      let (after, _, inside, again) = find_crlf-prefix 12 12 start end (omega arith) found in
      let behind = read_decimal-end (slice data_bytes start end) end v e read in
      (
        omega (arith, after, behind),
        omega (arith, inside, behind),
        rw (again, slice-prefix start end (omega (arith, inside))) read,
      )

  ends_bulk-prefix :
      (end : ℕ)
      → ends_bulk data_bytes end ≡ true
      → (end + 2 ≤ length data_bytes) × (ends_bulk (data_bytes ++ more) end ≡ true)
  unfolding ends_bulk
  ends_bulk-prefix end h =
      let (inside, ended) =
        and-true (leb (end + 2) (length data_bytes)) (eq_list (slice data_bytes end (end + 2)) crlf)
          h in
      let inside' : leb (end + 2) (length (data_bytes ++ more)) ≡ true =
        ground (arith, inside, length-append data_bytes more) in
      (ground arith, rw (inside', slice-prefix end (end + 2) (ground arith)) ended)

  pub bulk_string-prefix :
      (at size begin : ℕ)
      → bulk_string data_bytes at ≡ some (size, begin)
      → (at < begin)
        × (begin + size + 2 ≤ length data_bytes)
        × (bulk_string (data_bytes ++ more) at ≡ some (size, begin))
  unfolding bulk_string ◌>>=◌
  bulk_string-prefix at size begin h =
      let ((n, b), line, rest) = bind-some (decimal_line data_bytes at) _ (size, begin) h in
      let (ended, same) = require-value _ (n, b) (size, begin) rest in
      let (after, _, again) = decimal_line-prefix at n b line in
      let (inside, ended') = ends_bulk-prefix (b + n) ended in
      let same_size : n ≡ size = ap (λ (read : ℕ × ℕ). read.0) same in
      let same_begin : b ≡ begin = ap (λ (read : ℕ × ℕ). read.1) same in
      (
        omega (arith, after, same_begin),
        omega (arith, inside, same_begin, same_size),
        rw (again, ended') (ap some same),
      )
