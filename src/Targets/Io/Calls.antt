-- ===== src/Targets/Io/Calls.antt =====
-- The pairs of calls that harnesses/io.c builds.
use r_oss_fuzz.Host.Boot.{Boot}
use r_oss_fuzz.Targets.Io
