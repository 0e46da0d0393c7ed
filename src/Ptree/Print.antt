-- ===== src/Ptree/Print.antt =====
-- What the program of Project1/Problem2/ptree.c prints of the rows that the system call of
-- Project1/Problem1/sys_ptree.c gave it.
use operating_system_project.Ptree.Preorder.{
  emit-layer, restored, pstree_dfs-preorder, emit_all-buf, emit_all-idx, emit_all, preorder,
}
use text.Mathlib.Text.{◌==◌ as str_eq}
use operating_system_project.Prelude.{
  take, get_elem?, ℕ, zero, suc, ◌+◌, ◌<◌, ◌≡◌, refl, ap, ◌∙◌, true, some, List, [], ◌∷◌, arith,
  ◌==◌, if◌then◌else◌, length,
}
use operating_system_project.Ptree.Dfs.{
  emit, deeper, pstree_dfs, higher, Walk, mark_end, init_row, Forest, finish_text, Prinfo, ptree,
  Info,
}

-- The rows that main prints, from index `i` on, with `left` indices to go: it stops at the mark. A row is
-- printed behind four blanks for each layer.
unfoldable pub printed : ℕ → ℕ → (ℕ → Prinfo) → List Prinfo
printed zero i buf = []
printed (suc left) i buf =
    let rest = printed left (i + 1) buf in
    if str_eq finish_text (buf i).comm then [] else buf i ∷ rest

-- main, for the size `nr` of its buffer: nothing but an error message where the call returns 1.
unfoldable pub main_rows : ℕ → ℕ × (ℕ → Prinfo) → List Prinfo
unfolding printed
main_rows nr (result, buf) = if result == 1 then [] else printed nr 0 buf

-- The rows in front of one whose task has the mark for a name.
pub until_finish : List Prinfo → List Prinfo
until_finish [] = []
until_finish (r ∷ rs) = if str_eq finish_text r.comm then [] else r ∷ until_finish rs

printed-rows :
    (left i : ℕ) (buf : ℕ → Prinfo) (rs : List Prinfo)
    → ((j : ℕ) (r : Prinfo) → get_elem? rs j ≡ some r → j < left → buf (i + j) ≡ r)
    → (length rs < left → (buf (i + length rs)).comm ≡ finish_text)
    → printed left i buf ≡ until_finish (take left rs)
unfolding printed until_finish
printed-rows zero i buf rs at_row at_end = refl
printed-rows (suc left) i buf [] at_row at_end =
    let e : (buf i).comm ≡ finish_text =
      ap (λ (n : ℕ). (buf n).comm) (omega arith) ∙ at_end (omega arith) in
    rw e
printed-rows (suc left) i buf (r ∷ rs) at_row at_end =
    let e : buf i ≡ r = ap buf (omega arith) ∙ at_row 0 r refl (omega arith) in
    let ih =
      printed-rows left (i + 1) buf rs
        (λ j x g h. ap buf (omega arith) ∙ at_row (suc j) x g (omega arith))
        (λ h. ap (λ (n : ℕ). (buf n).comm) (omega arith) ∙ at_end (omega arith)) in
    rw (e, ih)

-- The rows of the whole tree.
abbrev pub all_rows : Info → Forest → List Prinfo
all_rows init kids = init_row init kids ∷ preorder 1 kids

-- The walk through the whole tree, from an empty one.
walked :
    (nr : ℕ) (init : Info) (kids : Forest) (s : Walk)
    → s.layer ≡ 0
    → higher (pstree_dfs nr kids (deeper (emit nr (init_row init kids) s)))
      ≡ emit_all nr (all_rows init kids) s
unfolding emit_all
walked nr init kids s h =
    let e = emit nr (init_row init kids) s in
    ap higher (pstree_dfs-preorder nr kids (deeper e))
    ∙ (restored nr (preorder (e.layer + 1) kids) e
        ∙ ap (λ (n : ℕ). emit_all nr (preorder (n + 1) kids) e)
            (emit-layer nr (init_row init kids) s ∙ h))

mark_end-below : (nr : ℕ) (s : Walk) (j : ℕ) → j < s.idx → (mark_end nr s).buf j ≡ s.buf j
unfolding mark_end
mark_end-below nr s j h = ground arith

mark_end-finish : (nr : ℕ) (s : Walk) → s.idx < nr → ((mark_end nr s).buf s.idx).comm ≡ finish_text
unfolding mark_end
mark_end-finish nr s h = ground arith

get_elem?-lt : (rs : List Prinfo) (j : ℕ) (r : Prinfo) → get_elem? rs j ≡ some r → j < length rs
get_elem?-lt [] j r e = cc
get_elem?-lt (x ∷ rs) zero r e = omega arith
get_elem?-lt (x ∷ rs) (suc j) r e = omega (arith, get_elem?-lt rs j r e)

marked-rows :
    (nr : ℕ) (rs : List Prinfo) (buf : ℕ → Prinfo)
    → let s : Walk = emit_all nr rs (record { buf = buf; idx = 0; layer = 0 }) in
      printed nr 0 (mark_end nr s).buf ≡ until_finish (take nr rs)
marked-rows nr rs buf =
    let s0 : Walk = record { buf = buf; idx = 0; layer = 0 } in
    let s = emit_all nr rs s0 in
    let top = emit_all-idx nr rs s0 (omega arith) in
    printed-rows nr 0 (mark_end nr s).buf rs
      (λ j r g h.
        let place : (0 + j) ≡ j = omega arith in
        mark_end-below nr s (0 + j) (omega (arith, top, get_elem?-lt rs j r g))
        ∙ emit_all-buf nr rs s0 j r g (omega arith))
      (λ h.
        ap (λ (n : ℕ). ((mark_end nr s).buf n).comm) (omega (arith, top))
        ∙ mark_end-finish nr s (omega (arith, top)))

-- The program prints the tree in preorder, each task with its layer: all of it if it has fewer rows than
-- the buffer, and otherwise as many as there is room for; in both cases it stops at a task with the mark
-- for a name. What stood in the buffer before does not matter.
pub main_rows-ptree :
    (nr : ℕ) (init : Info) (kids : Forest) (buf : ℕ → Prinfo)
    → main_rows nr (ptree true nr init kids buf) ≡ until_finish (take nr (all_rows init kids))
unfolding main_rows ptree
main_rows-ptree nr init kids buf =
    let s0 : Walk = record { buf = buf; idx = 0; layer = 0 } in
    ap (λ (s : Walk). printed nr 0 (mark_end nr s).buf) (walked nr init kids s0 refl)
    ∙ marked-rows nr (all_rows init kids) buf
