-- ===== src/Lib.antt =====
-- The fuzz targets for R (harnesses/), as models with their correctness proofs.
--
-- A target is a C program of two entry points. `fuzz_target_init` starts R and builds a table of R
-- calls. `fuzz_target_run` takes the bytes of one input: it checks their size, picks a slot by a
-- selector byte, puts the payload where that slot's call reads it, and evaluates the call. What the
-- targets share stands in harnesses/common.h.
--
-- Modules and sources:
--   Host               what a target asks of R and of the file system, as a trace of operations; a
--                      `Host` says which of them succeed, in view of all that was done before
--   Host.Call          the R calls of a slot as terms, with `Rf_lang*`, `SET_TAG` and
--                      `fuzz_make_wrapper` as constructors and functions
--   Host.Boot          the start that targets have in common: `fuzz_init_r` as far as it may stop the
--                      process, and `fuzz_make_wrapper`
--   Host.Session       the order that the targets keep, as a specification
--   Host.Buffers, Host.Fields   C strings, and the cut at a newline of character.c and datetime.c
--   Common.Repeat      `fuzz_repeat_product_excessive` of harnesses/common.h
--   Common.Labels      `fuzz_label_append_line` and `fuzz_do_deparse` of harnesses/common.h
--   Common.Labels.Table   `fuzz_label_call`, `fuzz_label_calls` and `fuzz_label_enter`
--   Common.Startup     `fuzz_set_r_home`, `fuzz_set_vsize_limit` and `fuzz_init_r`
--   Common.Driver      `fuzz_alarm_wrap`, and what `LLVMFuzzerInitialize` reads of its arguments; in
--                      Inputs the two entry points and libFuzzer's loop
--   Common.Objects     R's objects at their addresses: allocation, collection, the protect stack and
--                      `R_ToplevelExec`
--   Common.Staging     `fuzz_set_string`, `fuzz_set_string_ce`, `fuzz_set_raw_arg`, and
--                      `set_encoding_input` of harnesses/encoding.c, on R's objects
--   Common.Scratch     `fuzz_scratch_file` and `fuzz_write_scratch`, and `make_scratch_dir` of
--                      harnesses/zip.c
--   Common.Thread      `fuzz_run_on_r_thread` and `fuzz_r_thread_main` of harnesses/common.h, with the two
--                      signal handlers in Handlers, and all of the process as a step relation in
--                      System; the other modules below it hold the proofs, Invariant what is kept
--   Eval.Utf8          `eval_valid_utf8` of harnesses/eval.c, with Eval.Utf8.Encoding for UTF-8 itself
--   Eval.Tree          `eval_tree_within_budget` of harnesses/eval.c
--   Eval.Budget        `eval_poll_budget`, `eval_compile`, `eval_source`, `eval_run` and
--                      `fuzz_target_run` of harnesses/eval.c
--   Eval.Sandbox       the environments that `fuzz_target_init` of harnesses/eval.c builds
--   Eval.Start         `fuzz_target_init` of harnesses/eval.c, from the parts of Common.Startup,
--                      Eval.Sandbox and Eval.Budget
--   Targets.X          harnesses/x.c: `sources` and `calls` are its tables, `init` its
--                      `fuzz_target_init`, `run` its `fuzz_target_run`
--   Targets.Character  harnesses/character.c, with the masks in Slots and the guard
--                      `fuzz_chartr_table_excessive` in Chartr
--   Targets.Datetime   harnesses/datetime.c, with `ctype_is_utf8` as explicit state; `find_utf8_locale`
--                      in Probe, and `make_setlocale_call` on R's objects in Switch
--   Targets.Encoding   harnesses/encoding.c; in Calls `iconv_call` on R's objects
--   Targets.World      a target's operations carried out on R's objects and on files
--   Targets.Text, Raw, Whole, Staging, Lines   theorems on the targets, by what their inputs are
--   Tests              the theorems at concrete inputs
--
-- Conventions. A byte is a number; a read outside of a buffer, an overrun, an index out of range and
-- `abort()` are the value `none`, so that a theorem which says `some` says that none of them happens.
-- A C loop is a recursion on the list that it reads or on fuel: `eval_valid_utf8` and
-- `fuzz_chartr_table_excessive` have one round for each byte and one more, and so has
-- `fuzz_repeat_product_excessive`, which is enough since a round moves on by a byte at least. Unsigned
-- arithmetic keeps its wrap-around; a `double` that only counts is a number below 2^53.
--
-- The wait for a dump keeps the 5000 rounds of the source, and the table of labels its 128 places.
--
-- The threads of harnesses/common.h move in any order, one access of shared memory at a time; a wakeup
-- may come without a broadcast, SIGALRM at any time, and a fork between two calls. The clock does not go
-- back. What `pthread_create` and `pthread_atfork` refuse ends the process, and is no step; the handler
-- of libFuzzer that the alarm goes on to is one step, which may also be the last. Where the target runs
-- is one move, between the stores of `running`, and may set the label. The first job is that of
-- `LLVMFuzzerInitialize`, which does not clear it.
--
-- R itself is not in the repository. It is a parameter: `Host` for the staging and the evaluations,
-- `BinHost` for the round trip of io.c, `Rhost` for the parser, the compiler and the evaluator behind
-- eval.c, `Rbase` for its base environment, `Rstart` for its start, `Boot` for what it makes of a
-- source at start-up, `Printer` for its deparser, and `Collector` for its memory manager, which may refuse
-- an allocation and may free, in front of one, what nothing protects. The C library is `Clib` where files are made and written.
-- Nothing is said about what a call does inside of R.
--
-- Not modelled: `fuzz_suppress_warnings` beyond the call that it makes, since it keeps no state;
-- `fuzz_init_r` and `fuzz_make_wrapper` in the start-up of a target that does not take a `Boot`, which is
-- modelled from behind them, and `fuzz_label_calls` in any of them; a call of `fuzz_run_on_r_thread` on
-- the R thread itself, which no target makes; what `fuzz_r_thread_main` does to the mask of signals in
-- front of its loop; and the programs of tests/, which drive a built target.
-- The build, the scripts, the patches to R, the seeds and the dictionaries are data or other programs.
pub mod Base
pub mod Host
pub mod Common
pub mod Eval
pub mod Targets
pub mod Tests
