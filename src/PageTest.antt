-- ===== src/PageTest.antt =====
-- The programs that write to a traced area: Project2/page-trace-test/jni/page_trace_test.c and
-- Project2/ras_page_trace_test/jni/ras_pt_test.c.
pub mod Process
pub mod Programs
mod Rounds
mod Loops
mod Tests
