-- ===== src/Trace/Termination.antt =====
-- The loop of mprotect_s in page-trace/start_trace.c ends: each round moves the start of what is left
-- behind the end of an area.
use operating_system_project.Trace.Mprotect.{
  early, prot_growsup, page_align, prot_growsdown, mprotect_s, first_prev, go_on, new_flags,
  checked, withheld, next_area, protect_areas, protect_from, Outcome, IsMemory, Memory,
}
use operating_system_project.Prelude.{
  has_flag, u32, max, min, ==_iff, ℤ, ℕ, zero, suc, ◌+◌, ◌-◌, ◌^◌, ◌≤◌, ◌<◌, ◌≡◌, refl, ◌≢◌, inl,
  inr, Bool, true, false, Option, none, some, arith, leb, ◌==◌, if◌then◌else◌, Bool-cases,
}
use operating_system_project.Trace.Mprotect.{returns, out_of_fuel}
use operating_system_project.Prelude.{pos, negsuc}

module _ (m : Memory) (ok : IsMemory m) where
  open m use {Mm, Vma, find_vma, vm_start, vm_end, vm_next}

  abbrev Ends : Outcome m → Type 0
  Ends o = o ≢ out_of_fuel

  returns-Ends : (mm : Mm) (e : ℤ) → Ends (returns mm e)
  returns-Ends mm e h = cc

  -- A test that returns early, whose answer the rest may use.
  early-Ends :
      (b : Bool) (e : ℤ) (mm : Mm) (rest : Outcome m)
      → (b ≡ false → Ends rest)
      → Ends (early m b e mm rest)
  unfolding early
  early-Ends true e mm rest k = returns-Ends mm e
  early-Ends false e mm rest k = k refl

  if-Ends' : (b : Bool) (x y : Outcome m) → Ends x → Ends y → Ends (if b then x else y)
  if-Ends' true x y h k = h
  if-Ends' false x y h k = k

  next_area-Ends :
      (again : Mm → Vma → ℕ → Outcome m) (end_ next : ℕ) (mm : Mm) (o : Option Vma)
      → ((v : Vma) → vm_start mm v ≡ next → Ends (again mm v next))
      → Ends (next_area m again end_ next mm o)
  next_area-Ends again end_ next mm none h = (returns-Ends _ _)
  next_area-Ends again end_ next mm (some v) h = elim (Bool-cases (vm_start mm v == next)) [
    | inl e ↦ rw e (h v ((==_iff (vm_start mm v) next).0 e))
    | inr e ↦ rw e (returns-Ends _ _)
  ]

  go_on-Ends :
      (again : Mm → Vma → Vma → ℕ → Outcome m) (end_ tmp : ℕ) (r : Mm × Option Vma × ℤ)
      → ((mm : Mm) (v p : Vma) (n : ℕ)
          → vm_start mm v ≡ n
          → tmp ≤ n
          → n < end_
          → Ends (again mm v p n))
      → Ends (go_on m again end_ tmp r)
  go_on-Ends again end_ tmp (mm, none, pos zero) h = λ e. cc
  go_on-Ends again end_ tmp (mm, some p, pos zero) h =
      elim (Bool-cases (leb end_ (max tmp (vm_end mm p)))) [
        | inl e ↦ rw e (returns-Ends _ _)
        | inr e ↦ rw e (
            next_area-Ends (λ mm' v n. again mm' v p n) end_ (max tmp (vm_end mm p)) mm
              (vm_next mm p)
              (λ v s. h mm v p (max tmp (vm_end mm p)) s (omega arith) (ground arith)))
      ]
  go_on-Ends again end_ tmp (mm, none, pos (suc e)) h = (returns-Ends _ _)
  go_on-Ends again end_ tmp (mm, some p, pos (suc e)) h = (returns-Ends _ _)
  go_on-Ends again end_ tmp (mm, none, negsuc e) h = (returns-Ends _ _)
  go_on-Ends again end_ tmp (mm, some p, negsuc e) h = (returns-Ends _ _)

  checked-Ends : (rest : Outcome m) (mm : Mm) (e : ℤ) → Ends rest → Ends (checked m rest mm e)
  checked-Ends rest mm (pos zero) h = h
  checked-Ends rest mm (pos (suc e)) h = (returns-Ends _ _)
  checked-Ends rest mm (negsuc e) h = (returns-Ends _ _)

  protect_areas-Ends :
      (fuel bits reqprot prot end_ : ℕ) (mm : Mm) (v : Vma) (p : Option Vma) (nstart : ℕ)
      → nstart < vm_end mm v
      → nstart < end_
      → end_ - nstart ≤ fuel
      → Ends (protect_areas m fuel bits reqprot prot end_ mm v p nstart)
  unfolding protect_areas
  protect_areas-Ends zero bits reqprot prot end_ mm v p n a b c = absurd (omega arith)
  protect_areas-Ends (suc fuel) bits reqprot prot end_ mm v p n a b c =
      elim (Bool-cases (withheld m (new_flags m bits (m.vm_flags mm v)))) [
        | inl e ↦ rw e (returns-Ends _ _)
        | inr e ↦ rw e (
            checked-Ends _ mm (m.security mm v reqprot prot) (
              go_on-Ends _ end_ (min (vm_end mm v) end_)
                (m.protect mm v p n (min (vm_end mm v) end_) (new_flags m bits (m.vm_flags mm v)))
                (λ mm' v' p' k s lo hi.
                  protect_areas-Ends fuel bits reqprot prot end_ mm' v' (some p') k
                    (omega (arith, (ok.proper mm' v').0)) hi (omega arith))))
      ]

  protect_from-Ends :
      (fuel grows bits reqprot prot : ℕ) (mm : Mm) (start end_ : ℕ) (o : Option Vma)
      → ((v : Vma) → o ≡ some v → start < vm_end mm v)
      → start < end_
      → end_ < 2 ^ 32
      → 2 ^ 32 ≤ fuel
      → Ends (protect_from m fuel grows bits reqprot prot mm start end_ o)
  unfolding protect_from
  protect_from-Ends fuel grows bits reqprot prot mm start end_ none f lt hi enough =
      (returns-Ends _ _)
  protect_from-Ends fuel grows bits reqprot prot mm start end_ (some v) f lt hi enough =
      let (proper, top) = ok.proper mm v in
      let loop = λ (s e : ℕ) (a : s < vm_end mm v) (b : s < e) (c : e < 2 ^ 32).
        protect_areas-Ends fuel bits reqprot prot e mm v (first_prev m mm v s) s a b
          (omega arith) in
      if-Ends' (has_flag grows prot_growsdown) _ _
        (early-Ends _ _ mm _
          (λ g. early-Ends _ _ mm _ (λ _. loop (vm_start mm v) end_ proper (ground arith) hi)))
        (early-Ends _ _ mm _ (λ _.
          if-Ends' (has_flag grows prot_growsup) _ _
            (early-Ends _ _ mm _ (λ _. loop start (vm_end mm v) (f v refl) (f v refl) top))
            (loop start end_ (f v refl) lt hi)))

  -- For every address space, range and protection, 2 ^ 32 rounds of fuel are enough for mprotect_s: it
  -- returns, or reads through a null pointer that mprotect_fixup left, and never runs on.
  pub mprotect_s-Ends :
      (fuel : ℕ) (mm : Mm) (start len prot : ℕ)
      → 2 ^ 32 ≤ fuel
      → mprotect_s m fuel mm start len prot ≢ out_of_fuel
  unfolding mprotect_s
  mprotect_s-Ends fuel mm start len prot enough = early-Ends _ _ mm _ λ _. early-Ends _ _ mm _ λ _.
      early-Ends _ _ mm _ λ _. early-Ends (leb (u32 (start + page_align len)) start) _ mm _ λ g.
        early-Ends _ _ mm _ λ _.
          protect_from-Ends fuel _ _ _ _ mm start (u32 (start + page_align len)) (find_vma mm start)
            (λ v h. ok.found mm start v h) (ground arith) (omega arith) enough
