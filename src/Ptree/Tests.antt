-- ===== src/Ptree/Tests.antt =====
-- Runs of the process tree's call and program on a small tree.
use operating_system_project.Ptree.Print.{main_rows-ptree, all_rows, until_finish, main_rows}
use operating_system_project.Ptree.Preorder.{preorder}
use operating_system_project.Prelude.{take, String, ℕ, ◌≡◌, refl, true, some, [], ◌∷◌, map}
use operating_system_project.Ptree.Dfs.{ptree, Info, Forest, Prinfo, Walk, leaf, child}

abbrev named : ℕ → ℕ → String → Info
named pid parent name = record {
  pid = pid;
  real_parent = some parent;
  state = 0;
  uid = 0;
  comm = name;
}

-- 0 has the children 1 and 2; 1 has the child 5.
abbrev small_tree : Forest
small_tree =
    child (named 1 0 "init") (child (named 5 1 "sh") leaf leaf)
      (child (named 2 0 "kthreadd") leaf leaf)

abbrev blank : Prinfo
blank = record {
  parent_pid = 0;
  pid = 0;
  first_child_pid = 0;
  next_sibling_pid = 0;
  state = 0;
  uid = 0;
  comm = "";
  layer = 0;
}

abbrev start : Walk
start = record { buf = λ i. blank; idx = 0; layer = 1 }

main_rows-ptree_example :
    main_rows 3 (ptree true 3 (named 0 0 "swapper") small_tree (λ i. blank))
    ≡ until_finish (take 3 (all_rows (named 0 0 "swapper") small_tree))
main_rows-ptree_example = main_rows-ptree 3 (named 0 0 "swapper") small_tree (λ i. blank)

pids : map (λ (r : Prinfo). r.pid) (preorder 1 small_tree) ≡ 1 ∷ 5 ∷ 2 ∷ []
unfolding preorder
pids = refl
