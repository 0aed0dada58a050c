-- ===== src/Tests/Boots.antt =====
-- A start on the R thread, where R makes a closure of every source.
use r_oss_fuzz.Base.{true, some}
use r_oss_fuzz.Host.Boot.{Boot}

abbrev pub able_boot : Boot
able_boot = record { on_r_thread = true; parses = λ s. some 1; evaluates = λ s. true }
