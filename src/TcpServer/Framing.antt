-- ===== src/TcpServer/Framing.antt =====
-- The lines that the server makes of what it reads, compared with those of the whole stream.
use rale.Base.{
  ℕ, zero, suc, ◌≡◌, ◌<◌, ◌≤◌, ◌+◌, refl, sym, ap, ◌∙◌, subst, Bool, true, false, List, [], ◌∷◌,
  ◌++◌, Option, none, some, leb, ◌==◌, if◌then◌else◌, arith, Bool-cases, Option-cases, inl, inr,
  length, length-append, drop, take, take_all, ==_iff,
}
use rale.Text.{Bytes, c_string, strchr}
use rale.StateFile.Words.{Lacks, strchr-append}
use rale.StateFile.Reading.{Lacks-append}
use rale.TcpServer.{append_received, split_line, split_lines, receive_bytes, receive_all}
use rale.TcpServer.Stream.{
  is_newline, is_zero, rest-Lacks, rest-newline, short_lines, short_lines-after, short_lines-append,
  short_lines-low, short_lines-plain, short_lines-prefix, stream_lines, stream_lines-Lacks,
  stream_lines-append, stream_lines-line, with_line,
}

abbrev pub all_of : List Bytes → Bytes
all_of [] = []
all_of (r ∷ rs) = r ++ all_of rs

-- `read` brings at most 1023 bytes at a time.
abbrev pub AreReads : List Bytes → Type 0
AreReads [] = Unit
AreReads (r ∷ rs) = (length r < 1024) × AreReads rs

c_string_whole : (s : Bytes) → Lacks is_zero s → c_string s ≡ s
unfolding c_string
c_string_whole [] h = refl
c_string_whole (c ∷ s) h = rw (h.0, c_string_whole s h.1) refl

-- The results of `strchr`.
strchr-here : (c d : ℕ) (s : Bytes) → (d == c) ≡ true → strchr c (d ∷ s) ≡ some ([], s)
unfolding strchr
strchr-here c d s e = rw (e, strchr)

strchr-past :
    (c d : ℕ) (s a b : Bytes)
    → (d == c) ≡ false
    → strchr c s ≡ some (a, b)
    → strchr c (d ∷ s) ≡ some (d ∷ a, b)
unfolding strchr
strchr-past c d s a b e k = rw (e, k, strchr)

strchr-none : (c : ℕ) (s : Bytes) → strchr c s ≡ none → Lacks (λ d. d == c) s
strchr-none c [] h = tt
strchr-none c (d ∷ s) h = elim (Bool-cases (d == c)) [
  | inl e ↦ let here = strchr-here c d s e in cc
  | inr e ↦ elim (Option-cases (strchr c s)) [
    | inl k ↦ (e, strchr-none c s k)
    | inr ((a, b), k) ↦ let past = strchr-past c d s a b e k in cc
  ]
]

strchr-absent :
    (c d : ℕ) (s : Bytes) → (d == c) ≡ false → strchr c s ≡ none → strchr c (d ∷ s) ≡ none
unfolding strchr
strchr-absent c d s e k = rw (e, k, strchr)

-- A text that `strchr` has split.
record Split (c : ℕ) (s a b : Bytes) : Type 0 where
  whole : s ≡ a ++ c ∷ b
  before : Lacks (λ d. d == c) a

pair_parts :
    (a b x y : Bytes)
    → ◌≡◌ {A = Option (Bytes × Bytes)} (some (x, y)) (some (a, b))
    → (x ≡ a) × (y ≡ b)
pair_parts a b x y h = (cc, cc)

strchr-some : (c : ℕ) (s a b : Bytes) → strchr c s ≡ some (a, b) → Split c s a b
strchr-some c [] a b h = unfold strchr in cc
strchr-some c (d ∷ s) a b h = elim (Bool-cases (d == c)) [
  | inl e ↦
      let (front, back) = pair_parts a b [] s (sym (strchr-here c d s e) ∙ h) in
      rw (← front, ← back, (==_iff d c).0 e) (record { whole = refl; before = tt })
  | inr e ↦ elim (Option-cases (strchr c s)) [
    | inl k ↦ let absent = strchr-absent c d s e k in cc
    | inr ((x, y), k) ↦
        let (front, back) = pair_parts a b (d ∷ x) y (sym (strchr-past c d s x y e k) ∙ h) in
        let rest = strchr-some c s x y k in
        rw (← front, ← back)
          (record { whole = ap (λ t. d ∷ t) rest.whole; before = (e, rest.before) })
  ]
]

drop_line : (a : Bytes) (c : ℕ) (b : Bytes) → drop (suc (length a)) (a ++ c ∷ b) ≡ b
drop_line [] c b = refl
drop_line (d ∷ a) c b = drop_line a c b

take_line :
    (a : Bytes) (ls : List Bytes)
    → (if length a == 0 then ls else take (length a) a ∷ ls) ≡ with_line a ls
take_line [] ls = refl
take_line (c ∷ a) ls = rw (take_all (length (c ∷ a)) (c ∷ a) (omega arith)) (ground arith)

split_line-line :
    (again : Bytes → List Bytes × Bytes) (a b : Bytes)
    → length a < 1024
    → split_line again (a ++ 10 ∷ b) (some (a, b)) ≡ (with_line a (again b).0, (again b).1)
unfolding split_line
split_line-line again a b short =
    let whole : leb 1024 (length a) ≡ false = ground arith in
    rw (whole, drop_line a 10 b, take_line) refl

-- One round of the loop of the server.
split_lines-line :
    (n : ℕ) (a b : Bytes)
    → Lacks is_newline a
    → Lacks is_zero (a ++ 10 ∷ b)
    → length a < 1024
    → split_lines (suc n) (a ++ 10 ∷ b) ≡ (with_line a (split_lines n b).0, (split_lines n b).1)
unfolding split_lines
split_lines-line n a b plain zeros short =
    rw (c_string_whole (a ++ 10 ∷ b) zeros, strchr-append 10 a b plain)
      (split_line-line (split_lines n) a b short)

split_lines-none :
    (n : ℕ) (buf : Bytes)
    → Lacks is_zero buf
    → strchr 10 buf ≡ none
    → split_lines (suc n) buf ≡ ([], buf)
unfolding split_lines
split_lines-none n buf zeros e = rw (c_string_whole buf zeros, e) (unfold split_line in refl)

Lacks-after : (a b : Bytes) → Lacks is_zero (a ++ 10 ∷ b) → Lacks is_zero b
Lacks-after [] b h = h.1
Lacks-after (c ∷ a) b h = Lacks-after a b h.1

-- With fuel for the buffer, the loop of the server finds the lines of a buffer whose lines are short.
split_lines-stream_lines :
    (n : ℕ) (buf : Bytes)
    → length buf ≤ n
    → Lacks is_zero buf
    → short_lines 0 buf ≡ true
    → split_lines n buf ≡ stream_lines [] buf
split_lines-stream_lines zero [] enough zeros short =
    unfold split_lines in unfold stream_lines in refl
split_lines-stream_lines zero (c ∷ s) enough zeros short = absurd (omega arith)
split_lines-stream_lines (suc n) buf enough zeros short = elim (Option-cases (strchr 10 buf)) [
  | inl e ↦ split_lines-none n buf zeros e ∙ sym (stream_lines-Lacks [] buf (strchr-none 10 buf e))
  | inr ((a, b), e) ↦
      let parts = strchr-some 10 buf a b e in
      let zeros' = subst (Lacks is_zero) parts.whole zeros in
      let short' = subst (λ t. short_lines 0 t ≡ true) parts.whole short in
      let enough' = subst (λ t. length t ≤ suc n) parts.whole enough in
      let after = short_lines-after a b parts.before short' in
      rw parts.whole (
        split_lines-line n a b parts.before zeros' after.0
        ∙ rw
            (
              split_lines-stream_lines n b (omega (arith, enough', length-append a (10 ∷ b)))
                  (Lacks-after a b zeros') after.1,
              stream_lines-line [] a b parts.before,
            )
            refl)
]

Lacks-parts : (sep : ℕ → Bool) (a b : Bytes) → Lacks sep (a ++ b) → Lacks sep a × Lacks sep b
Lacks-parts sep [] b h = (tt, h)
Lacks-parts sep (c ∷ a) b h = let (front, back) = Lacks-parts sep a b h.1 in ((h.0, front), back)

-- A read into a buffer that holds an unfinished line.
receive_bytes-stream_lines :
    (buf r : Bytes)
    → length r < 1024
    → Lacks is_newline buf
    → Lacks is_zero (buf ++ r)
    → short_lines (length buf) r ≡ true
    → receive_bytes buf r ≡ stream_lines buf r
unfolding receive_bytes append_received
receive_bytes-stream_lines buf r read plain zeros short =
    let low = short_lines-low (length buf) r short in
    let room : leb 2048 (length buf + length r) ≡ false = ground arith in
    let whole : short_lines 0 (buf ++ r) ≡ true =
      short_lines-plain 0 buf r plain (subst (λ m. short_lines m r ≡ true) (omega arith) short) in
    rw
      (
        room,
        split_lines-stream_lines (length (buf ++ r)) (buf ++ r) (omega arith) zeros whole,
        stream_lines-append [] buf r,
        stream_lines-Lacks [] buf plain,
      )
      refl

-- Reads of at most 1023 bytes each, of a stream without zero bytes in which no line is longer than 1023
-- bytes, give exactly the lines of the stream that are not empty, and leave its unfinished line in the
-- buffer, however the stream is cut into reads.
pub receive_all-stream_lines :
    (buf : Bytes) (reads : List Bytes)
    → AreReads reads
    → Lacks is_newline buf
    → Lacks is_zero (buf ++ all_of reads)
    → short_lines (length buf) (all_of reads) ≡ true
    → receive_all buf reads ≡ stream_lines buf (all_of reads)
unfolding receive_all
receive_all-stream_lines buf [] h plain zeros short = unfold stream_lines in refl
receive_all-stream_lines buf (r ∷ rs) h plain zeros short =
    let (zero_buf, zero_reads) = Lacks-parts is_zero buf (r ++ all_of rs) zeros in
    let (zero_r, zero_rest) = Lacks-parts is_zero r (all_of rs) zero_reads in
    let first =
      receive_bytes-stream_lines buf r h.0 plain (Lacks-append is_zero buf r zero_buf zero_r)
        (short_lines-prefix (length buf) r (all_of rs) short) in
    let left = (stream_lines buf r).1 in
    rw
      (
        first,
        receive_all-stream_lines left rs h.1 (rest-newline buf r plain)
            (Lacks-append is_zero left (all_of rs) (rest-Lacks is_zero buf r zero_buf zero_r)
              zero_rest)
            (short_lines-append buf r (all_of rs) short),
        stream_lines-append buf r (all_of rs),
      )
      refl
