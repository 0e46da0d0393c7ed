-- ===== src/Ptree/Preorder.antt =====
-- The rows that pstree_dfs of Project1/Problem1/sys_ptree.c writes are the tree in preorder.
use operating_system_project.Ptree.Dfs.{
  deeper, higher, row, leaf, child, emit, Prinfo, Forest, pstree_dfs, Walk,
}
use operating_system_project.Prelude.{
  get_elem?, min, ℕ, zero, suc, ◌+◌, ◌≤◌, ◌<◌, ◌≡◌, refl, sym, ap, ◌∙◌, some, List, [], ◌∷◌, ◌++◌,
  arith, length,
}

-- The rows of a list of children, each task in front of its own children and these in front of its
-- siblings, with its layer.
unfoldable pub preorder : ℕ → Forest → List Prinfo
preorder layer leaf = []
preorder layer (child i kids rest) =
    row layer i kids rest ∷ (preorder (layer + 1) kids ++ preorder layer rest)

-- Rows written one after the other from an index on, as far as there is room.
unfoldable pub emit_all : ℕ → List Prinfo → Walk → Walk
emit_all nr [] s = s
emit_all nr (r ∷ rs) s = emit_all nr rs (emit nr r s)

emit_all-append :
    (nr : ℕ) (xs ys : List Prinfo) (s : Walk)
    → emit_all nr (xs ++ ys) s ≡ emit_all nr ys (emit_all nr xs s)
unfolding emit_all
emit_all-append nr [] ys s = refl
emit_all-append nr (x ∷ xs) ys s = emit_all-append nr xs ys (emit nr x s)

abbrev at_layer : ℕ → Walk → Walk
at_layer n s = record s { layer = n }

emit-at_layer :
    (nr n : ℕ) (r : Prinfo) (s : Walk) → emit nr r (at_layer n s) ≡ at_layer n (emit nr r s)
unfolding emit
emit-at_layer nr n r s = ground arith

emit_all-at_layer :
    (nr n : ℕ) (rs : List Prinfo) (s : Walk)
    → emit_all nr rs (at_layer n s) ≡ at_layer n (emit_all nr rs s)
unfolding emit_all
emit_all-at_layer nr n [] s = refl
emit_all-at_layer nr n (r ∷ rs) s =
    ap (emit_all nr rs) (emit-at_layer nr n r s) ∙ emit_all-at_layer nr n rs (emit nr r s)

pub emit-layer : (nr : ℕ) (r : Prinfo) (s : Walk) → (emit nr r s).layer ≡ s.layer
unfolding emit
emit-layer nr r s = ground arith

emit_all-layer : (nr : ℕ) (rs : List Prinfo) (s : Walk) → (emit_all nr rs s).layer ≡ s.layer
unfolding emit_all
emit_all-layer nr [] s = refl
emit_all-layer nr (r ∷ rs) s = emit_all-layer nr rs (emit nr r s) ∙ emit-layer nr r s

-- The rows below a task leave the layer as it was.
pub restored :
    (nr : ℕ) (rs : List Prinfo) (s : Walk) → higher (emit_all nr rs (deeper s)) ≡ emit_all nr rs s
restored nr rs s =
    ap higher (emit_all-at_layer nr (s.layer + 1) rs s)
    ∙ ap (λ (n : ℕ). at_layer n (emit_all nr rs s)) (omega (arith, emit_all-layer nr rs s))

-- pstree_dfs writes the preorder of the list of children, from the layer on that it finds, as far as the
-- buffer has room.
pub pstree_dfs-preorder :
    (nr : ℕ) (f : Forest) (s : Walk) → pstree_dfs nr f s ≡ emit_all nr (preorder s.layer f) s
unfolding pstree_dfs preorder emit_all
pstree_dfs-preorder nr leaf s = refl
pstree_dfs-preorder nr (child i kids rest) s =
    let e = emit nr (row s.layer i kids rest) s in
    let below = preorder (s.layer + 1) kids in
    let kids_done : higher (pstree_dfs nr kids (deeper e)) ≡ emit_all nr below e =
      ap higher (pstree_dfs-preorder nr kids (deeper e))
      ∙ (restored nr (preorder (e.layer + 1) kids) e
          ∙ ap (λ (n : ℕ). emit_all nr (preorder (n + 1) kids) e) (emit-layer nr _ s)) in
    ap (pstree_dfs nr rest) kids_done
    ∙ (pstree_dfs-preorder nr rest (emit_all nr below e)
        ∙ (ap (λ (n : ℕ). emit_all nr (preorder n rest) (emit_all nr below e))
              (emit_all-layer nr below e ∙ emit-layer nr _ s)
            ∙ sym (emit_all-append nr below (preorder s.layer rest) e)))

emit-below :
    (nr : ℕ) (r : Prinfo) (s : Walk) (j : ℕ)
    → j < s.idx
    → ((emit nr r s).buf j ≡ s.buf j) × (j < (emit nr r s).idx)
unfolding emit
emit-below nr r s j h = ground arith

emit_all-below :
    (nr : ℕ) (rs : List Prinfo) (s : Walk) (j : ℕ) → j < s.idx → (emit_all nr rs s).buf j ≡ s.buf j
unfolding emit_all
emit_all-below nr [] s j h = refl
emit_all-below nr (r ∷ rs) s j h =
    let (a, b) = emit-below nr r s j h in emit_all-below nr rs (emit nr r s) j b ∙ a

emit_here :
    (nr : ℕ) (r : Prinfo) (s : Walk)
    → s.idx < nr
    → ((emit nr r s).buf s.idx ≡ r) × ((emit nr r s).idx ≡ s.idx + 1)
unfolding emit
emit_here nr r s h = ground arith

-- A row that has room stands at its place.
pub emit_all-buf :
    (nr : ℕ) (rs : List Prinfo) (s : Walk) (j : ℕ) (r : Prinfo)
    → get_elem? rs j ≡ some r
    → s.idx + j < nr
    → (emit_all nr rs s).buf (s.idx + j) ≡ r
unfolding emit_all
emit_all-buf nr [] s j r e h = cc
emit_all-buf nr (x ∷ rs) s zero r e h =
    let (a, b) = emit_here nr x s (omega arith) in
    let same : x ≡ r = cc in
    ap (emit_all nr rs (emit nr x s)).buf (omega arith)
    ∙ (emit_all-below nr rs (emit nr x s) s.idx (omega (arith, b)) ∙ (a ∙ same))
emit_all-buf nr (x ∷ rs) s (suc j) r e h =
    let (a, b) = emit_here nr x s (omega arith) in
    ap (emit_all nr rs (emit nr x s)).buf (omega (arith, b))
    ∙ emit_all-buf nr rs (emit nr x s) j r e (omega (arith, b))

-- The index behind the rows.
pub emit_all-idx :
    (nr : ℕ) (rs : List Prinfo) (s : Walk)
    → s.idx ≤ nr
    → (emit_all nr rs s).idx ≡ min nr (s.idx + length rs)
unfolding emit_all emit
emit_all-idx nr [] s h = omega arith
emit_all-idx nr (r ∷ rs) s h = ground (arith, emit_all-idx nr rs (emit nr r s))
