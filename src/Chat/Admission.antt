-- ===== src/Chat/Admission.antt =====
-- The clients of Project1/Problem4/server/server.c as threads over one counter: each step is one
-- critical section under the mutex, or what a thread does between two of them.
use operating_system_project.Prelude.{
  ℕ, suc, ◌+◌, ◌≤◌, ◌<◌, ◌≡◌, refl, ap, ◌⊎◌, inl, inr, Bool, true, false, List, [], ◌∷◌, ◌++◌,
  arith,
}
use operating_system_project.Prelude.{ℤ, pos, negsuc, inc_ℤ, dec_ℤ, pos_part, neg_part}
use operating_system_project.Chat.Serve.{max_clibuf, serve_line, leave, reply}

-- Where a thread of `serve` stands, with its variable `start`: in its loop, behind it, or ended.
pub data Phase : Type 0 where
  serving : Bool → Phase
  leaving : Bool → Phase
  ended : Bool → Phase

-- `nserv`, and the threads in the order in which main created them
pub record Server : Type 0 where
  pub nserv : ℤ
  pub threads : List Phase

-- One step of the server. A line may be any text; the end of a client's stream, where read_line returns
-- 0, may come at any time.
pub data Step (s : Server) : Server → Type 0 where
  connect : Step s (record s { threads = s.threads ++ serving false ∷ [] })
  answers :
      (xs ys : List Phase) (b : Bool) (l out : List ℕ)
      → s.threads ≡ xs ++ serving b ∷ ys
      → (serve_line s.nserv b l).action ≡ reply out
      → Step s (record {
        nserv = (serve_line s.nserv b l).nserv;
        threads = xs ++ serving (serve_line s.nserv b l).start ∷ ys;
      })
  quits :
      (xs ys : List Phase) (b : Bool) (l : List ℕ)
      → s.threads ≡ xs ++ serving b ∷ ys
      → (serve_line s.nserv b l).action ≡ leave
      → Step s (record {
        nserv = (serve_line s.nserv b l).nserv;
        threads = xs ++ leaving (serve_line s.nserv b l).start ∷ ys;
      })
  hangs_up :
      (xs ys : List Phase) (b : Bool)
      → s.threads ≡ xs ++ serving b ∷ ys
      → Step s (record s { threads = xs ++ leaving b ∷ ys })
  counts_down :
      (xs ys : List Phase) (b : Bool)
      → s.threads ≡ xs ++ leaving b ∷ ys
      → Step s (record { nserv = dec_ℤ s.nserv; threads = xs ++ ended b ∷ ys })

pub data Reach : Server → Type 0 where
  start : Reach (record { nserv = pos 0; threads = [] })
  later : {s t : Server} → Reach s → Step s t → Reach t

-- 1 for a thread that has been admitted and has not counted down
abbrev pub is_admitted : Phase → ℕ
is_admitted (serving true) = 1
is_admitted (leaving true) = 1
is_admitted _ = 0

-- 1 for a thread that has counted down and was never admitted
abbrev pub is_turned_away : Phase → ℕ
is_turned_away (ended false) = 1
is_turned_away _ = 0

abbrev pub sum : (Phase → ℕ) → List Phase → ℕ
sum w [] = 0
sum w (p ∷ l) = w p + sum w l

abbrev pub admitted : Server → ℕ
admitted s = sum is_admitted s.threads

abbrev pub turned_away : Server → ℕ
turned_away s = sum is_turned_away s.threads

sum-append : (w : Phase → ℕ) (xs ys : List Phase) → sum w (xs ++ ys) ≡ sum w xs + sum w ys
sum-append w [] ys = omega arith
sum-append w (x ∷ xs) ys = omega (arith, sum-append w xs ys)

-- The counter is the number of admitted threads less the number of those that were turned away, and of
-- the former there are at most two more than of the latter.
pub record IsCounted (s : Server) : Type 0 where
  pub counter : pos_part s.nserv + turned_away s ≡ neg_part s.nserv + admitted s
  pub bounded : admitted s ≤ max_clibuf + turned_away s

-- One thread goes from a phase to another.
moved :
    (w : Phase → ℕ) (l xs ys : List Phase) (p q : Phase)
    → l ≡ xs ++ p ∷ ys
    → sum w (xs ++ q ∷ ys) + w p ≡ sum w l + w q
moved w l xs ys p q e =
    omega (arith, sum-append w xs (p ∷ ys), sum-append w xs (q ∷ ys), ap (sum w) e)

serve_line-counts :
    (n : ℤ) (b : Bool) (l : List ℕ)
    → ((serve_line n b l).nserv ≡ n) × ((serve_line n b l).start ≡ b)
      ⊎ ((serve_line n b l).nserv ≡ inc_ℤ n)
        × ((serve_line n b l).start ≡ true)
        × (b ≡ false)
        × (pos_part n < max_clibuf)
unfolding serve_line
serve_line-counts n b l = ground arith

inc_parts : (n : ℤ) → pos_part (inc_ℤ n) + neg_part n ≡ suc (neg_part (inc_ℤ n) + pos_part n)
inc_parts n = ground arith

dec_parts : (n : ℤ) → suc (pos_part (dec_ℤ n) + neg_part n) ≡ neg_part (dec_ℤ n) + pos_part n
dec_parts n = ground arith

one_sign : (n : ℤ) → (pos_part n ≡ 0) ⊎ (neg_part n ≡ 0)
one_sign (pos n) = inr refl
one_sign (negsuc n) = inl refl

-- A line moves a thread to `serving` or `leaving`, admitted or as it was.
entered-IsCounted :
    (s : Server) (xs ys : List Phase) (b : Bool) (l : List ℕ) (q : Bool → Phase)
    → ((c : Bool) → is_admitted (q c) ≡ is_admitted (serving c))
    → ((c : Bool) → is_turned_away (q c) ≡ 0)
    → s.threads ≡ xs ++ serving b ∷ ys
    → IsCounted s
    → IsCounted (record {
      nserv = (serve_line s.nserv b l).nserv;
      threads = xs ++ q (serve_line s.nserv b l).start ∷ ys;
    })
entered-IsCounted s xs ys b l q f g e v =
    let r = serve_line s.nserv b l in
    let a = moved is_admitted s.threads xs ys (serving b) (q r.start) e in
    let t = moved is_turned_away s.threads xs ys (serving b) (q r.start) e in
    elim (serve_line-counts s.nserv b l) [
      | inl (n, c) ↦ record {
        counter = rw n (ground (arith, f r.start, g r.start, v.counter));
        bounded = ground (arith, f r.start, g r.start, v.bounded);
      }
      | inr (n, c, d, room) ↦ record {
        counter = rw n (ground (arith, f r.start, g r.start, v.counter, inc_parts s.nserv));
        bounded = ground (arith, f r.start, g r.start, v.counter, v.bounded, one_sign s.nserv);
      }
    ]

-- Every step keeps the counter and its bound.
pub Step-IsCounted : {s t : Server} → Step s t → IsCounted s → IsCounted t
Step-IsCounted {s} connect v = record {
  counter = omega (
    arith,
    v.counter,
    sum-append is_admitted s.threads (serving false ∷ []),
    sum-append is_turned_away s.threads (serving false ∷ []),
  );
  bounded = omega (
    arith,
    v.bounded,
    sum-append is_admitted s.threads (serving false ∷ []),
    sum-append is_turned_away s.threads (serving false ∷ []),
  );
}
Step-IsCounted {s} (answers xs ys b l out e a) v =
    entered-IsCounted s xs ys b l serving (λ c. refl) (λ c. refl) e v
Step-IsCounted {s} (quits xs ys b l e a) v =
    entered-IsCounted s xs ys b l leaving (elim [ true ↦ refl | false ↦ refl ]) (λ c. refl) e v
Step-IsCounted {s} (hangs_up xs ys b e) v =
    let a = moved is_admitted s.threads xs ys (serving b) (leaving b) e in
    let t = moved is_turned_away s.threads xs ys (serving b) (leaving b) e in
    record { counter = ground (arith, v.counter); bounded = ground (arith, v.bounded) }
Step-IsCounted {s} (counts_down xs ys b e) v =
    let a = moved is_admitted s.threads xs ys (leaving b) (ended b) e in
    let t = moved is_turned_away s.threads xs ys (leaving b) (ended b) e in
    record {
      counter = ground (arith, v.counter, dec_parts s.nserv);
      bounded = ground (arith, v.bounded);
    }

-- In every reachable state the counter is the number of admitted threads less the number of those that
-- were turned away and have left, and at most MAXCLIBUF more are admitted than were turned away.
pub Reach-IsCounted : {s : Server} → Reach s → IsCounted s
Reach-IsCounted start = record { counter = refl; bounded = omega arith }
Reach-IsCounted (later r st) = Step-IsCounted st (Reach-IsCounted r)
