-- ===== src/Ptree.antt =====
-- The process tree of Project1: the system call of Problem1/sys_ptree.c and the program of
-- Problem2/ptree.c that prints its rows.
pub mod Dfs
pub mod Preorder
pub mod Print
mod Tests
