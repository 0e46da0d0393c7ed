-- ===== src/Chat/Lines.antt =====
-- read_line of Project1/Problem4/server/general.h against a description of the stream that does not
-- know how read(2) cut it into pieces.
use operating_system_project.Prelude.{
  ◌≤◌, ℕ, zero, suc, ◌+◌, ◌-◌, ◌<◌, ◌≡◌, refl, subst, ◌∙◌, ◌⊎◌, inl, inr, List, [], ◌∷◌, ◌++◌, map,
  arith, ◌==◌, if◌then◌else◌, Bool-cases, update, length,
}
use operating_system_project.Chat.Reader.{
  read_from_buf, read_line, line_loop, take_byte, finish, on_got, minus_one, refill_buf, Answer,
  Line, Reader, Got, chunk, closed, interrupted, broken, byte, eof, error, waits, line, blocked,
}

-- What the answers hold, byte for byte.
pub stream : List Answer → List Got
stream [] = []
stream (chunk c cs ∷ more) = byte c ∷ (map byte cs ++ stream more)
stream (closed ∷ more) = eof ∷ stream more
stream (interrupted ∷ more) = stream more
stream (broken ∷ more) = error ∷ stream more

-- What a reader has before it.
abbrev pub items : Reader → List Got
items r = map byte r.unread ++ stream r.answers

-- The first line of a stream: a text, with the newline if it has one; a text before an error; or one
-- that is not complete yet.
pub data First : Type 0 where
  text : List ℕ → List Got → First
  failed : List ℕ → List Got → First
  incomplete : First

abbrev pub with_byte : ℕ → First → First
with_byte c (text cs xs) = text (c ∷ cs) xs
with_byte c (failed cs xs) = failed (c ∷ cs) xs
with_byte c incomplete = incomplete

-- The first line, of at most `left` bytes
unfoldable pub first_line : ℕ → List Got → First
first_line zero xs = text [] xs
first_line (suc left) [] = incomplete
first_line (suc left) (byte c ∷ xs) =
    let more = with_byte c (first_line left xs) in if c == 10 then text (c ∷ []) xs else more
first_line (suc left) (eof ∷ xs) = text [] xs
first_line (suc left) (error ∷ xs) = failed [] xs
first_line (suc left) (waits ∷ xs) = incomplete

-- Bytes in memory from an index on
abbrev pub Stored : (ℕ → ℕ) → ℕ → List ℕ → Type 0
Stored m i [] = Unit
Stored m i (c ∷ cs) = (m i ≡ c) × Stored m (i + 1) cs

-- The memory below an index is as before.
abbrev pub SameBelow : ℕ → (ℕ → ℕ) → (ℕ → ℕ) → Type 0
SameBelow i m m' = (j : ℕ) → j < i → m' j ≡ m j

-- The memory from an index on is as before.
abbrev pub SameFrom : ℕ → (ℕ → ℕ) → (ℕ → ℕ) → Type 0
SameFrom i m m' = (j : ℕ) → i ≤ j → m' j ≡ m j

-- What read_line returns for a first line, from index `i` of the memory `m` on: the number of bytes, the
-- bytes in memory with a zero behind them unless there are none, and the rest of the stream; or the
-- unsigned -1, with the bytes in front of the error in memory and nothing written behind them.
abbrev pub Describes : ℕ → (ℕ → ℕ) → First → Line → Type 0
Describes i m (text cs xs) (line v m' r) =
    (v ≡ i + length cs)
    × (items r ≡ xs)
    × Stored m' i cs
    × ((v ≡ 0) ⊎ (m' v ≡ 0))
    × SameBelow i m m'
Describes i m (failed cs xs) (line v m' r) =
    (v ≡ minus_one)
    × (items r ≡ xs)
    × Stored m' i cs
    × SameBelow i m m'
    × SameFrom (i + length cs) m m'
Describes i m incomplete blocked = Unit
Describes i m _ _ = ⊥

abbrev Takes : List Got → Got × Reader → Type 0
Takes [] (g, r) = g ≡ waits
Takes (x ∷ xs) (g, r) = (g ≡ x) × (items r ≡ xs)

refill_buf-Takes : (l : List Answer) → Takes (stream l) (refill_buf l)
unfolding stream refill_buf
refill_buf-Takes [] = refl
refill_buf-Takes (chunk c cs ∷ more) = (refl, refl)
refill_buf-Takes (closed ∷ more) = (refl, refl)
refill_buf-Takes (interrupted ∷ more) = refill_buf-Takes more
refill_buf-Takes (broken ∷ more) = (refl, refl)

take_byte-Takes :
    (l : List ℕ) (more : List Answer) → Takes (map byte l ++ stream more) (take_byte l more)
take_byte-Takes [] more = refill_buf-Takes more
take_byte-Takes (c ∷ l) more = (refl, refl)

-- One byte more in front
Describes-with_byte :
    (i c : ℕ) (m : ℕ → ℕ) (f : First) (l : Line)
    → Describes (i + 1) (update m i c) f l
    → Describes i m (with_byte c f) l
Describes-with_byte i c m (text cs xs) (line v m' r) (a, b, s, z, k) = (
  omega arith,
  b,
  (k i (omega arith) ∙ ground arith, s),
  z,
  λ j h. k j (omega arith) ∙ ground arith,
)
Describes-with_byte i c m (failed cs xs) (line v m' r) (a, b, s, k, u) = (
  a,
  b,
  (k i (omega arith) ∙ ground arith, s),
  λ j h. k j (omega arith) ∙ ground arith,
  λ j h. u j (omega arith) ∙ ground arith,
)
Describes-with_byte i c m incomplete blocked h = tt
Describes-with_byte i c m (text cs xs) blocked h = h
Describes-with_byte i c m (failed cs xs) blocked h = h
Describes-with_byte i c m incomplete (line v m' r) h = h

finish-Describes :
    (i : ℕ) (m : ℕ → ℕ) (r : Reader) (xs : List Got)
    → items r ≡ xs
    → Describes i m (text [] xs) (finish i m r)
finish-Describes i m r xs e = (omega arith, e, tt, inr (ground arith), λ j h. ground arith)

on_got-Describes :
    (rest : (ℕ → ℕ) → Reader → Line) (left i : ℕ) (m : ℕ → ℕ) (xs : List Got) (p : Got × Reader)
    → ((m' : ℕ → ℕ) (r : Reader) → Describes (i + 1) m' (first_line left (items r)) (rest m' r))
    → Takes xs p
    → Describes i m (first_line (suc left) xs) (on_got rest i m p)
unfolding first_line
on_got-Describes rest left i m [] (g, r) ih t = rw t tt
on_got-Describes rest left i m (byte c ∷ xs) (g, r) ih (t, e) =
    let m' = update m i c in
    rw t (elim (Bool-cases (c == 10)) [
      | inl h ↦ rw h (
          Describes-with_byte i c m (text [] xs) (finish (i + 1) m' r)
            (finish-Describes (i + 1) m' r xs e))
      | inr h ↦ rw h (
          Describes-with_byte i c m (first_line left xs) (rest m' r) (
            subst (λ (ys : List Got). Describes (i + 1) m' (first_line left ys) (rest m' r)) e
              (ih m' r)))
    ])
on_got-Describes rest left i m (eof ∷ xs) (g, r) ih (t, e) = rw t (elim (Bool-cases (i == 0)) [
  | inl h ↦ rw h (ground (arith, h), e, tt, inl refl, λ j k. refl)
  | inr h ↦ rw h (finish-Describes i m r xs e)
])
on_got-Describes rest left i m (error ∷ xs) (g, r) ih (t, e) =
    rw t (refl, e, tt, λ j h. refl, λ j h. refl)
on_got-Describes rest left i m (waits ∷ xs) (g, r) ih (t, e) = rw t tt

line_loop-Describes :
    (left i : ℕ) (m : ℕ → ℕ) (r : Reader)
    → Describes i m (first_line left (items r)) (line_loop left i m r)
unfolding line_loop first_line read_from_buf
line_loop-Describes zero i m r = finish-Describes i m r (items r) refl
line_loop-Describes (suc left) i m r =
    on_got-Describes (λ m' r'. line_loop left (i + 1) m' r') left i m (items r) (read_from_buf r)
      (λ m' r'. line_loop-Describes left (i + 1) m' r') (take_byte-Takes r.unread r.answers)

-- read_line gives the first line of the stream, of at most length - 1 bytes, whatever pieces read(2)
-- delivers it in and however often it is interrupted: its value is the number of bytes and they stand in
-- memory with a zero behind them, or nothing was left and it is 0; it blocks exactly where the line is
-- not complete; and before a read error it returns 2 ^ 32 - 1, with the bytes in front of the error in memory and
-- nothing written behind them.
pub read_line-Describes :
    (length_ : ℕ) (m : ℕ → ℕ) (r : Reader)
    → Describes 0 m (first_line (length_ - 1) (items r)) (read_line length_ m r)
unfolding read_line
read_line-Describes length_ m r = line_loop-Describes (length_ - 1) 0 m r
