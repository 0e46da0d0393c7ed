-- ===== src/Chat/Reader.antt =====
-- The buffered reading of Project1/Problem4/server/general.h: read_from_buf for one byte, and read_line.
-- What the calls of read(2) return is an argument, a list of answers.
use operating_system_project.Prelude.{
  ℕ, zero, suc, ◌+◌, ◌-◌, ◌^◌, List, [], ◌∷◌, ◌==◌, if◌then◌else◌, update,
}

-- What one call of read gives: some bytes, the end of the stream, EINTR, or another error.
pub data Answer : Type 0 where
  chunk : ℕ → List ℕ → Answer
  closed : Answer
  interrupted : Answer
  broken : Answer

-- The bytes that lie unread in `buffer`, and the answers of the calls to come.
pub record Reader : Type 0 where
  pub unread : List ℕ
  pub answers : List Answer

-- What read_from_buf gives for n = 1: 1 with a byte, 0, or -1; `waits` where it blocks in read.
pub data Got : Type 0 where
  byte : ℕ → Got
  eof : Got
  error : Got
  waits : Got

abbrev pub reader : List ℕ → List Answer → Reader
reader l as_ = record { unread = l; answers = as_ }

-- The loop `while (*cnt <= 0)`, and the copy of a byte
unfoldable pub refill_buf : List Answer → Got × Reader
refill_buf [] = (waits, reader [] [])
refill_buf (chunk c cs ∷ more) = (byte c, reader cs more)
refill_buf (closed ∷ more) = (eof, reader [] more)
refill_buf (interrupted ∷ more) = refill_buf more
refill_buf (broken ∷ more) = (error, reader [] more)

abbrev pub take_byte : List ℕ → List Answer → Got × Reader
take_byte [] more = refill_buf more
take_byte (c ∷ cs) more = (byte c, reader cs more)

-- read_from_buf, for one byte
unfoldable pub read_from_buf : Reader → Got × Reader
unfolding refill_buf
read_from_buf r = take_byte r.unread r.answers

-- What read_line gives: its value and the line's memory, with the reader that is left; `blocked` where it
-- waits for more.
pub data Line : Type 0 where
  line : ℕ → (ℕ → ℕ) → Reader → Line
  blocked : Line

-- `*bufp = 0; return n - 1;` behind `i` bytes
abbrev pub finish : ℕ → (ℕ → ℕ) → Reader → Line
finish i mem r = line i (update mem i 0) r

-- -1, as the unsigned value that read_line returns
abbrev pub minus_one : ℕ
minus_one = 2 ^ 32 - 1

-- What is done with one result of read_from_buf, where `i` bytes are stored.
abbrev pub on_got : ((ℕ → ℕ) → Reader → Line) → ℕ → (ℕ → ℕ) → Got × Reader → Line
on_got rest i mem (byte c, r) =
    let more = rest (update mem i c) r in
    if c == 10 then finish (i + 1) (update mem i c) r else more
on_got rest i mem (eof, r) = if i == 0 then line 0 mem r else finish i mem r
on_got rest i mem (error, r) = line minus_one mem r
on_got rest i mem (waits, r) = blocked

-- The loop of read_line, with `left` rounds to go
unfoldable pub line_loop : ℕ → ℕ → (ℕ → ℕ) → Reader → Line
line_loop zero i mem r = finish i mem r
line_loop (suc left) i mem r =
    on_got (λ mem' r'. line_loop left (i + 1) mem' r') i mem (read_from_buf r)

-- MAXLINE
abbrev pub max_line : ℕ
max_line = 256

-- read_line, into the memory `mem`
unfoldable pub read_line : ℕ → (ℕ → ℕ) → Reader → Line
unfolding line_loop
read_line length_ mem r = line_loop (length_ - 1) 0 mem r
