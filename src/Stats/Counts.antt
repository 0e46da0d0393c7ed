-- ===== src/Stats/Counts.antt =====
-- The slots of Project2/cmp/cmp.c count each process's cycles, as long as there are no more processes than
-- slots.
use operating_system_project.Prelude.{
  case-if, ℕ, suc, ◌+◌, ◌≤◌, ◌≡◌, refl, ◌∙◌, ◌≢◌, Bool, true, false, ◌&&◌, Option, none, some, List,
  [], ◌∷◌, arith, ◌==◌, if◌then◌else◌, length,
}
use operating_system_project.Prelude.{
  ℤ, pos, negsuc, pos_part, is_negative, All, count, member, member-pos, member-false, remove,
  length-remove,
}
use operating_system_project.Stats.Slots.{
  Slot, same_ℤ, ran, behind, bump, claim, or_else, count_cycle,
}

-- The cycles that the slots hold for a process
abbrev pub running_of : ℕ → List Slot → ℕ
running_of m [] = 0
running_of m (s ∷ ss) =
    (if s.marked && same_ℤ s.pid (pos m) then s.running_cycle else 0) + running_of m ss

-- The processes of the marked slots
abbrev pub marked_pids : List Slot → List ℕ
marked_pids [] = []
marked_pids (s ∷ ss) = if s.marked then pos_part s.pid ∷ marked_pids ss else marked_pids ss

abbrev pub one_if : Bool → ℕ
one_if b = if b then 1 else 0

-- More distinct elements than a list has do not fit into it.
member-remove_ne : (a x : ℕ) (l : List ℕ) → a ≢ x → member a l ≡ true → member a (remove x l) ≡ true
member-remove_ne a x [] h m = m
member-remove_ne a x (y ∷ l) h m = ground (arith, member-remove_ne a x l)

member-if :
    (a p : ℕ) (b : Bool) (l known : List ℕ)
    → (b ≡ true → member p known ≡ true)
    → (member a l ≡ true → member a known ≡ true)
    → member a (if b then p ∷ l else l) ≡ true
    → member a known ≡ true
member-if a p false l known f g m = g m
member-if a p true l known f g m = ground (arith, f refl)

length-le-known :
    (l known : List ℕ)
    → ((a : ℕ) → count a l ≤ 1)
    → ((a : ℕ) → member a l ≡ true → member a known ≡ true)
    → length l ≤ length known
length-le-known [] known d m = omega arith
length-le-known (x ∷ l) known d m =
    let inside = m x (ground arith) in
    let rest =
      length-le-known l (remove x known) (λ a. ground (arith, d a))
        (λ a h.
          member-remove_ne a x known (λ e. ground (arith, d x, member-pos a l h))
            (m a (ground arith))) in
    omega (arith, rest, length-remove x known inside)

member-slot :
    (n : ℕ) (b : Bool) (z : ℤ) (l : List ℕ)
    → (b ≡ true → is_negative z ≡ false)
    → (b && same_ℤ z (pos n)) ≡ false
    → member n l ≡ false
    → member n (if b then pos_part z ∷ l else l) ≡ false
member-slot n false z l h e m = m
member-slot n true (pos a) l h e m = ground arith
member-slot n true (negsuc a) l h e m = absurd (ground (arith, h refl))

runs-hit :
    (n m r rest : ℕ) (b : Bool) (z : ℤ)
    → (b && same_ℤ z (pos n)) ≡ true
    → (if b && same_ℤ z (pos m) then r + 1 else 0) + rest
      ≡ (if b && same_ℤ z (pos m) then r else 0) + rest + one_if (n == m)
runs-hit n m r rest false z h = absurd (ground arith)
runs-hit n m r rest true (pos a) h = ground arith
runs-hit n m r rest true (negsuc a) h = absurd (ground arith)

runs-claimed :
    (n m r rest : ℕ) (b : Bool) (z : ℤ)
    → b ≡ false
    → r ≡ 0
    → (if same_ℤ (pos n) (pos m) then r + 1 else 0) + rest
      ≡ (if b && same_ℤ z (pos m) then r else 0) + rest + one_if (n == m)
runs-claimed n m r rest false z h e = ground arith
runs-claimed n m r rest true z h e = absurd (ground arith)

pids-claimed :
    (n a : ℕ) (b : Bool) (z : ℤ) (l : List ℕ)
    → b ≡ false
    → count a (n ∷ l) ≡ count a (if b then pos_part z ∷ l else l) + one_if (n == a)
pids-claimed n a false z l h = ground arith
pids-claimed n a true z l h = absurd (ground arith)

once-more :
    (n a : ℕ) (l : List ℕ) (k : ℕ)
    → member n l ≡ false
    → count a l ≤ 1
    → k ≡ count a l + one_if (n == a)
    → k ≤ 1
once-more n a l k out h e = ground (arith, member-false n l out)

once-cons : (n a : ℕ) (l : List ℕ) → member n l ≡ false → count a l ≤ 1 → count a (n ∷ l) ≤ 1
once-cons n a l out h = ground (arith, member-false n l out)

module _ (known : List ℕ) where
  -- A slot that is not marked has no cycles, and a marked one belongs to a known process.
  pub record IsSlotted (s : Slot) : Type 0 where
    pub unused : s.marked ≡ false → s.running_cycle ≡ 0
    pub natural : s.marked ≡ true → is_negative s.pid ≡ false
    pub listed : s.marked ≡ true → member (pos_part s.pid) known ≡ true

  -- One cycle more for the process n, with `extra` saying which processes got a slot
  record Counted (n : ℕ) (extra : ℕ → ℕ) (ss ss' : List Slot) : Type 0 where
    runs : (m : ℕ) → running_of m ss' ≡ running_of m ss + one_if (n == m)
    pids : (a : ℕ) → count a (marked_pids ss') ≡ count a (marked_pids ss) + extra a
    kept : All IsSlotted ss'
    size : length ss' ≡ length ss

  abbrev BumpSpec : ℕ → List Slot → Option (List Slot) → Type 0
  BumpSpec n ss none = member n (marked_pids ss) ≡ false
  BumpSpec n ss (some ss') = Counted n (λ a. 0) ss ss'

  abbrev ClaimSpec : ℕ → List Slot → Option (List Slot) → Type 0
  ClaimSpec n ss none = length (marked_pids ss) ≡ length ss
  ClaimSpec n ss (some ss') = Counted n (λ a. one_if (n == a)) ss ss'

  Counted-behind :
      (n : ℕ) (extra : ℕ → ℕ) (s : Slot) (ss ss' : List Slot)
      → IsSlotted s
      → Counted n extra ss ss'
      → Counted n extra (s ∷ ss) (s ∷ ss')
  Counted-behind n extra s ss ss' h c = record {
    runs = λ m. omega (arith, c.runs m);
    pids = λ a. ground (arith, c.pids a);
    kept = (h, c.kept);
    size = omega (arith, c.size);
  }

  bump-behind :
      (n : ℕ) (s : Slot) (ss : List Slot) (o : Option (List Slot))
      → IsSlotted s
      → (s.marked && same_ℤ s.pid (pos n)) ≡ false
      → BumpSpec n ss o
      → BumpSpec n (s ∷ ss) (behind s o)
  bump-behind n s ss none h e b = member-slot n s.marked s.pid (marked_pids ss) (h.natural) e b
  bump-behind n s ss (some ss') h e b = Counted-behind n (λ a. 0) s ss ss' h b

  Counted-ran :
      (cycle n : ℕ) (s : Slot) (ss : List Slot)
      → All IsSlotted (s ∷ ss)
      → (s.marked && same_ℤ s.pid (pos n)) ≡ true
      → Counted n (λ a. 0) (s ∷ ss) (ran cycle s ∷ ss)
  Counted-ran cycle n s ss h e = record {
    runs = λ m. runs-hit n m s.running_cycle (running_of m ss) s.marked s.pid e;
    pids = λ a. ground arith;
    kept = (
      record { unused = λ f. absurd (ground arith); natural = h.0.natural; listed = h.0.listed },
      h.1,
    );
    size = refl;
  }

  Counted-claimed :
      (cycle n : ℕ) (s : Slot) (ss : List Slot)
      → member n known ≡ true
      → All IsSlotted (s ∷ ss)
      → s.marked ≡ false
      → Counted n
          (λ a. one_if (n == a))
          (s ∷ ss)
          (record (ran cycle s) { pid = pos n; marked = true } ∷ ss)
  Counted-claimed cycle n s ss k h e = record {
    runs = λ m. runs-claimed n m s.running_cycle (running_of m ss) s.marked s.pid e (h.0.unused e);
    pids = λ a. pids-claimed n a s.marked s.pid (marked_pids ss) e;
    kept =
        (record { unused = λ f. absurd (ground arith); natural = λ f. refl; listed = λ f. k }, h.1);
    size = refl;
  }

  bump-BumpSpec :
      (cycle n : ℕ) (ss : List Slot) → All IsSlotted ss → BumpSpec n ss (bump cycle (pos n) ss)
  unfolding bump
  bump-BumpSpec cycle n [] h = refl
  bump-BumpSpec cycle n (s ∷ ss) h =
      case-if (BumpSpec n (s ∷ ss)) (s.marked && same_ℤ s.pid (pos n)) _ _
        (Counted-ran cycle n s ss h)
        (λ miss. bump-behind n s ss (bump cycle (pos n) ss) h.0 miss (bump-BumpSpec cycle n ss h.1))

  claim-behind :
      (n : ℕ) (s : Slot) (ss : List Slot) (o : Option (List Slot))
      → IsSlotted s
      → s.marked ≡ true
      → ClaimSpec n ss o
      → ClaimSpec n (s ∷ ss) (behind s o)
  claim-behind n s ss none h e b = ground arith
  claim-behind n s ss (some ss') h e b = Counted-behind n (λ a. one_if (n == a)) s ss ss' h b

  claim-ClaimSpec :
      (cycle n : ℕ) (ss : List Slot)
      → member n known ≡ true
      → All IsSlotted ss
      → ClaimSpec n ss (claim cycle (pos n) ss)
  unfolding claim
  claim-ClaimSpec cycle n [] k h = refl
  claim-ClaimSpec cycle n (s ∷ ss) k h =
      case-if (ClaimSpec n (s ∷ ss)) s.marked _ _
        (λ used.
          claim-behind n s ss (claim cycle (pos n) ss) h.0 used (claim-ClaimSpec cycle n ss k h.1))
        (Counted-claimed cycle n s ss k h)

  -- The slots: nine of them, each process in one at most
  pub record Counting (ss : List Slot) : Type 0 where
    pub slotted : All IsSlotted ss
    pub once : (a : ℕ) → count a (marked_pids ss) ≤ 1
    pub nine : length ss ≡ 9

  marked_pids-known :
      (ss : List Slot) (a : ℕ)
      → All IsSlotted ss
      → member a (marked_pids ss) ≡ true
      → member a known ≡ true
  marked_pids-known [] a h m = absurd (ground arith)
  marked_pids-known (s ∷ ss) a h m =
      member-if a (pos_part s.pid) s.marked (marked_pids ss) known (h.0.listed)
        (marked_pids-known ss a h.1) m

  full_known :
      (n : ℕ) (l : List ℕ)
      → member n l ≡ false
      → member n known ≡ true
      → ((a : ℕ) → count a l ≤ 1)
      → ((a : ℕ) → member a l ≡ true → member a known ≡ true)
      → suc (length l) ≤ length known
  full_known n l out m once inside =
      length-le-known (n ∷ l) known (λ a. once-cons n a l out (once a))
        (λ a. member-if a n true l known (λ e. m) (inside a))

  -- What one count of a process does
  pub record Stepped (n : ℕ) (ss ss' : List Slot) : Type 0 where
    pub runs : (m : ℕ) → running_of m ss' ≡ running_of m ss + one_if (n == m)
    pub kept : Counting ss'

  Stepped-claim :
      (n : ℕ) (ss : List Slot) (o : Option (List Slot))
      → length known ≤ 8 + 1
      → member n known ≡ true
      → Counting ss
      → member n (marked_pids ss) ≡ false
      → ClaimSpec n ss o
      → Stepped n ss (or_else o ss)
  Stepped-claim n ss none k m h out full = absurd (
      omega (
        arith,
        full,
        k,
        h.nine,
        full_known n (marked_pids ss) out m h.once (λ a. marked_pids-known ss a h.slotted),
      ))
  Stepped-claim n ss (some ss') k m h out c = record {
    runs = c.runs;
    kept = record {
      slotted = c.kept;
      once =
          λ a. once-more n a (marked_pids ss) (count a (marked_pids ss')) out (h.once a) (c.pids a);
      nine = c.size ∙ h.nine;
    };
  }

  Stepped-bump :
      (n : ℕ) (ss rest : List Slot) (o : Option (List Slot))
      → Counting ss
      → BumpSpec n ss o
      → (member n (marked_pids ss) ≡ false → Stepped n ss rest)
      → Stepped n ss (or_else o rest)
  Stepped-bump n ss rest none h out f = f out
  Stepped-bump n ss rest (some ss') h c f = record {
    runs = c.runs;
    kept = record {
      slotted = c.kept;
      once = λ a. omega (arith, c.pids a, h.once a);
      nine = c.size ∙ h.nine;
    };
  }

  pub count_cycle-Stepped :
      (cycle n : ℕ) (ss : List Slot)
      → length known ≤ 9
      → member n known ≡ true
      → Counting ss
      → Stepped n ss (count_cycle cycle (pos n) ss)
  unfolding count_cycle
  count_cycle-Stepped cycle n ss k m h =
      Stepped-bump n ss _ (bump cycle (pos n) ss) h (bump-BumpSpec cycle n ss h.slotted) (λ out.
        Stepped-claim n ss (claim cycle (pos n) ss) k m h out
          (claim-ClaimSpec cycle n ss m h.slotted))
