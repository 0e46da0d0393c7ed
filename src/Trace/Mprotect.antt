-- ===== src/Trace/Mprotect.antt =====
-- mprotect_s of page-trace/start_trace.c. The address space, its lookup, the security check and the
-- change of one area are the kernel's, and not in the repository: they are the fields of a parameter.
use operating_system_project.Prelude.{
  bit_and, bit_or, max, min, u32, ℕ, zero, suc, ◌+◌, ◌-◌, ◌*◌, ◌/◌, ◌%◌, ◌^◌, ◌<◌, ◌≡◌, Bool, not,
  ◌&&◌, Option, none, some, ltb, leb, ◌==◌, if◌then◌else◌,
}
use operating_system_project.Prelude.{ℤ, pos, negsuc, has_flag}

-- -EINVAL, -ENOMEM, -EACCES and -ENOSYS
abbrev pub einval : ℤ
einval = negsuc 21

abbrev pub enomem : ℤ
enomem = negsuc 11

abbrev pub eacces : ℤ
eacces = negsuc 12

abbrev pub enosys : ℤ
enosys = negsuc 37

abbrev pub page_size : ℕ
page_size = 2 ^ 12

-- PAGE_ALIGN on a size_t of 32 bits
abbrev pub page_align : ℕ → ℕ
page_align n = u32 (n + (page_size - 1)) / page_size * page_size

-- What the repository does not hold of the address space `Mm`. An area is a value of `Vma`, and its
-- limits and its neighbours are read in the address space as it is. `protect` is mprotect_fixup: it
-- returns the address space that it leaves, what it stores through its second argument, and its error.
pub record Memory : Type 1 where
  pub Mm : Type 0
  pub Vma : Type 0
  pub find_vma : Mm → ℕ → Option Vma
  pub vm_start : Mm → Vma → ℕ
  pub vm_end : Mm → Vma → ℕ
  pub vm_flags : Mm → Vma → ℕ
  pub vm_prev : Mm → Vma → Option Vma
  pub vm_next : Mm → Vma → Option Vma
  pub valid_prot : ℕ → Bool
  pub implies_exec : Bool
  pub prot_bits : ℕ → ℕ
  pub security : Mm → Vma → ℕ → ℕ → ℤ
  pub protect : Mm → Vma → Option Vma → ℕ → ℕ → ℕ → Mm × Option Vma × ℤ

abbrev pub prot_read : ℕ
prot_read = 1

abbrev pub prot_exec : ℕ
prot_exec = 4

abbrev pub prot_growsdown : ℕ
prot_growsdown = 2 ^ 24

abbrev pub prot_growsup : ℕ
prot_growsup = 2 ^ 25

abbrev pub vm_growsdown : ℕ
vm_growsdown = 2 ^ 8

abbrev pub vm_growsup : ℕ
vm_growsup = 2 ^ 9

-- VM_READ | VM_WRITE | VM_EXEC, the lowest three bits
abbrev pub vm_access : ℕ
vm_access = 8

module _ (m : Memory) where
  open m use {
    Mm, Vma, find_vma, vm_start, vm_end, vm_flags, vm_prev, vm_next, valid_prot, implies_exec,
    prot_bits, security, protect,
  }

  -- vm_flags | (vma->vm_flags & ~(VM_READ | VM_WRITE | VM_EXEC)), for the flags `bits` that
  -- calc_vm_prot_bits gives
  abbrev pub new_flags : ℕ → ℕ → ℕ
  new_flags bits old = bit_or bits (old / vm_access * vm_access)

  -- (newflags & ~(newflags >> 4)) & (VM_READ | VM_WRITE | VM_EXEC): a bit that VM_MAY% withholds
  abbrev pub withheld : ℕ → Bool
  withheld f = not (bit_and (f % 8) (7 - f / 16 % 8) == 0)

  -- What the function does: return, with the address space that it leaves and its value; read through
  -- a null `prev`; or not end within the fuel.
  pub data Outcome : Type 0 where
    returns : Mm → ℤ → Outcome
    crash : Outcome
    out_of_fuel : Outcome

  -- `if (test) return error;`, before the rest
  unfoldable pub early : Bool → ℤ → Mm → Outcome → Outcome
  early test error mm rest = if test then returns mm error else rest

  -- The loop's end, or its way to the area behind `prev`.
  abbrev pub next_area : (Mm → Vma → ℕ → Outcome) → ℕ → ℕ → Mm → Option Vma → Outcome
  next_area again end_ next mm none = returns mm enomem
  next_area again end_ next mm (some vma) =
      let rest = again mm vma next in if vm_start mm vma == next then rest else returns mm enomem

  -- What is done when mprotect_fixup has returned.
  abbrev pub go_on : (Mm → Vma → Vma → ℕ → Outcome) → ℕ → ℕ → Mm × Option Vma × ℤ → Outcome
  go_on again end_ tmp (mm, none, pos zero) = crash
  go_on again end_ tmp (mm, some prev, pos zero) =
      let next = max tmp (vm_end mm prev) in
      let rest = next_area (λ mm' vma n. again mm' vma prev n) end_ next mm (vm_next mm prev) in
      if leb end_ next then returns mm (pos 0) else rest
  go_on again end_ tmp (mm, prev, pos (suc e)) = returns mm (pos (suc e))
  go_on again end_ tmp (mm, prev, negsuc e) = returns mm (negsuc e)

  -- What is done when the security check has answered.
  abbrev pub checked : Outcome → Mm → ℤ → Outcome
  checked rest mm (pos zero) = rest
  checked rest mm (pos (suc e)) = returns mm (pos (suc e))
  checked rest mm (negsuc e) = returns mm (negsuc e)

  -- The loop over the areas.
  unfoldable pub protect_areas : ℕ → ℕ → ℕ → ℕ → ℕ → Mm → Vma → Option Vma → ℕ → Outcome
  protect_areas zero bits reqprot prot end_ mm vma prev nstart = out_of_fuel
  protect_areas (suc fuel) bits reqprot prot end_ mm vma prev nstart =
      let flags : ℕ = new_flags bits (vm_flags mm vma) in
      let tmp : ℕ = min (vm_end mm vma) end_ in
      let rest =
        go_on (λ mm' v p n. protect_areas fuel bits reqprot prot end_ mm' v (some p) n) end_ tmp
          (protect mm vma prev nstart tmp flags) in
      let done = checked rest mm (security mm vma reqprot prot) in
      if withheld flags then returns mm eacces else done

  -- `prev` at the loop's start: the area itself, where the range begins inside it.
  abbrev pub first_prev : Mm → Vma → ℕ → Option Vma
  first_prev mm vma start = if ltb (vm_start mm vma) start then some vma else vm_prev mm vma

  -- The limits of the range, where it grows with the area, and the way into the loop.
  unfoldable pub protect_from : ℕ → ℕ → ℕ → ℕ → ℕ → Mm → ℕ → ℕ → Option Vma → Outcome
  unfolding protect_areas
  protect_from fuel grows bits reqprot prot mm start end_ none = returns mm enomem
  protect_from fuel grows bits reqprot prot mm start end_ (some vma) =
      let low : ℕ = vm_start mm vma in
      let high : ℕ = vm_end mm vma in
      let flags : ℕ = vm_flags mm vma in
      let loop =
        λ (s e : ℕ). protect_areas fuel bits reqprot prot e mm vma (first_prev mm vma s) s in
      if has_flag grows prot_growsdown
      then early (leb end_ low) enomem mm
          (early (not (has_flag flags vm_growsdown)) einval mm (loop low end_))
      else early (ltb start low) enomem mm (
          if has_flag grows prot_growsup
          then early (not (has_flag flags vm_growsup)) einval mm (loop start high)
          else loop start end_)

  -- mprotect_s
  unfoldable pub mprotect_s : ℕ → Mm → ℕ → ℕ → ℕ → Outcome
  mprotect_s fuel mm start len prot =
      let grows : ℕ = bit_and prot (prot_growsdown + prot_growsup) in
      let plain : ℕ = prot % 2 ^ 24 + prot / 2 ^ 26 * 2 ^ 26 in
      let end_ : ℕ = u32 (start + page_align len) in
      let full : ℕ =
        if has_flag plain prot_read && implies_exec then bit_or plain prot_exec else plain in
      early (grows == prot_growsdown + prot_growsup) einval mm (
        early (not (start % page_size == 0)) einval mm (
          early (len == 0) (pos 0) mm (
            early (leb end_ start) enomem mm (
              early (not (valid_prot plain)) einval mm (
                protect_from fuel grows (prot_bits full) plain full mm start end_
                  (find_vma mm start))))))

-- What the kernel's documentation says of areas: none is empty or ends above the address space, and
-- the one that find_vma finds ends above the address.
pub record IsMemory (m : Memory) : Type 0 where
  pub proper :
      (mm : m.Mm) (v : m.Vma) → (m.vm_start mm v < m.vm_end mm v) × (m.vm_end mm v < 2 ^ 32)
  pub found : (mm : m.Mm) (a : ℕ) (v : m.Vma) → m.find_vma mm a ≡ some v → a < m.vm_end mm v
