-- ===== src/Eval.antt =====
-- harnesses/eval.c: what the target lets through to the interpreter, and for how long.
pub mod Utf8
pub mod Tree
pub mod Budget
pub mod Sandbox
pub mod Start
