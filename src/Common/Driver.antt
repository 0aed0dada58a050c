-- ===== src/Common/Driver.antt =====
-- The entry points of harnesses/common.h that libFuzzer calls, and `fuzz_alarm_wrap`, which puts a
-- handler in front of libFuzzer's. The signals that matter are SIGALRM and the dump signal; whether a
-- call of `sigaction` succeeds is a parameter, and so is `atoi`.
pub mod Wraps
pub mod Inputs
use r_oss_fuzz.Base.{
  ℕ, zero, suc, Bool, true, false, not, ◌||◌, Option, none, some, List, [], ◌∷◌, Bytes, codes, drop,
  if◌then◌else◌,
}
use r_oss_fuzz.Common.Labels.Table.{starts_with}

-- The action of a signal: SIG_DFL, a handler of another library without or with `SA_SIGINFO`, or one
-- of the two of this file, which have it.
pub data Action : Type 0 where
  sig_dfl alarm_handler dump_handler : Action
  plain with_info : ℕ → Action

-- `!(current.sa_flags & SA_SIGINFO) || current.sa_sigaction == NULL` is false.
unfoldable pub takes_info : Action → Bool
takes_info sig_dfl = false
takes_info (plain n) = false
takes_info (with_info n) = true
takes_info alarm_handler = true
takes_info dump_handler = true

-- `fuzz_alarm.wrapped` and `fuzz_alarm.chain`, with the actions of SIGALRM and of the dump signal.
pub record Signals : Type 0 where
  pub wrapped : Bool
  pub chain : Option Action
  pub on_alarm : Action
  pub on_dump : Action

-- Which of the four calls of `sigaction` succeed, the last of which is to put the default action back.
pub record Results : Type 0 where
  pub reads : Bool
  pub dumps : Bool
  pub wraps : Bool
  pub restores : Bool

unfoldable pub fuzz_alarm_wrap : Results → Signals → Signals
unfolding takes_info
fuzz_alarm_wrap r s =
    if s.wrapped
    then s
    else if not r.reads || not (takes_info s.on_alarm)
    then record s { wrapped = true }
    else if not r.dumps
    then record s { wrapped = true }
    else if r.wraps
    then record {
      wrapped = true;
      chain = some s.on_alarm;
      on_alarm = alarm_handler;
      on_dump = dump_handler;
    }
    else record s {
      wrapped = true;
      chain = some s.on_alarm;
      on_dump = if r.restores then sig_dfl else dump_handler;
    }

-- `LLVMFuzzerTestOneInput` wraps the alarm before each input.
unfoldable pub wrap_all : List Results → Signals → Signals
unfolding fuzz_alarm_wrap
wrap_all [] s = s
wrap_all (r ∷ rs) s = wrap_all rs (fuzz_alarm_wrap r s)

abbrev pub timeout_flag : Bytes
timeout_flag = codes "-timeout="

-- The loop of `LLVMFuzzerInitialize` over the arguments behind the name of the program.
unfoldable pub read_timeout : (Bytes → ℕ) → List Bytes → ℕ → ℕ
unfolding starts_with
read_timeout atoi [] timeout = timeout
read_timeout atoi (arg ∷ args) timeout =
    read_timeout atoi args (if starts_with timeout_flag arg then atoi (drop 9 arg) else timeout)
