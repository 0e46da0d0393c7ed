-- ===== src/Ptree/Dfs.antt =====
-- The system call of Project1/Problem1/sys_ptree.c: pstree_dfs and ptree. The kernel's lists of children
-- are trees here; user memory is a function from indices to rows, and its writes do not fail.
use operating_system_project.Prelude.{
  String, ℕ, ◌+◌, ◌-◌, Bool, Option, none, some, ltb, if◌then◌else◌, update,
}

-- What the call reads of a task_struct. `real_parent` is none where the pointer is null, and `comm` is the
-- text in front of the terminating zero.
pub record Info : Type 0 where
  pub pid : ℕ
  pub real_parent : Option ℕ
  pub state : ℕ
  pub uid : ℕ
  pub comm : String

-- A list of children: the first one, its own children, and its younger siblings.
pub data Forest : Type 0 where
  leaf : Forest
  child : Info → Forest → Forest → Forest

-- `struct prinfo`
pub record Prinfo : Type 0 where
  pub parent_pid : ℕ
  pub pid : ℕ
  pub first_child_pid : ℕ
  pub next_sibling_pid : ℕ
  pub state : ℕ
  pub uid : ℕ
  pub comm : String
  pub layer : ℕ

-- The buffer, `*idx` and `*layer`.
pub record Walk : Type 0 where
  pub buf : ℕ → Prinfo
  pub idx : ℕ
  pub layer : ℕ

abbrev pub pid_or_zero : Option ℕ → ℕ
pid_or_zero none = 0
pid_or_zero (some p) = p

-- The pid of the first task of a list, or 0 if it is empty.
abbrev pub first_pid : Forest → ℕ
first_pid leaf = 0
first_pid (child i kids rest) = i.pid

-- The fields that are put into one row, for a task with the lists of its children and younger siblings.
abbrev pub row : ℕ → Info → Forest → Forest → Prinfo
row layer i kids rest = record {
  parent_pid = pid_or_zero i.real_parent;
  pid = i.pid;
  first_child_pid = first_pid kids;
  next_sibling_pid = first_pid rest;
  state = i.state;
  uid = i.uid;
  comm = i.comm;
  layer = layer;
}

-- `if (*idx < *nr) { ... *idx = *idx + 1; }`
unfoldable pub emit : ℕ → Prinfo → Walk → Walk
emit nr r s = if ltb s.idx nr then record s { buf = update s.buf s.idx r; idx = s.idx + 1 } else s

abbrev pub deeper : Walk → Walk
deeper s = record s { layer = s.layer + 1 }

abbrev pub higher : Walk → Walk
higher s = record s { layer = s.layer - 1 }

-- pstree_dfs, over the children of its task
unfoldable pub pstree_dfs : ℕ → Forest → Walk → Walk
unfolding emit
pstree_dfs nr leaf s = s
pstree_dfs nr (child i kids rest) s =
    pstree_dfs nr rest (higher (pstree_dfs nr kids (deeper (emit nr (row s.layer i kids rest) s))))

abbrev pub finish_text : String
finish_text = "Finish here!"

-- The row of init_task: it is its own root.
abbrev pub init_row : Info → Forest → Prinfo
init_row i kids = row 0 (record i { real_parent = none }) kids leaf

-- The mark behind the last row, if there is room for it.
unfoldable pub mark_end : ℕ → Walk → Walk
mark_end nr s =
    if ltb s.idx nr
    then record s { buf = update s.buf s.idx (record (s.buf s.idx) { comm = finish_text }) }
    else s

-- ptree, for the tree below init_task: its value and the buffer that it leaves. `valid` says that neither
-- pointer is null.
unfoldable pub ptree : Bool → ℕ → Info → Forest → (ℕ → Prinfo) → ℕ × (ℕ → Prinfo)
unfolding pstree_dfs mark_end
ptree valid nr init kids buf =
    let s = emit nr (init_row init kids) (record { buf = buf; idx = 0; layer = 0 }) in
    let t = mark_end nr (higher (pstree_dfs nr kids (deeper s))) in
    if valid then (0, t.buf) else (1, buf)
