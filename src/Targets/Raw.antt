-- ===== src/Targets/Raw.antt =====
-- The targets whose payload is bytes of any kind: a raw vector, a scratch file, or both.
use r_oss_fuzz.Base.{
  ℕ, ◌*◌, ◌%◌, Bool, ◌&&◌, some, List, [], ◌∷◌, Bytes, length, get_elem?, leb, if◌then◌else◌, ◌≡◌,
  refl, arith,
}
use r_oss_fuzz.Host.{Op, set_raw_arg, write_scratch, eval_silent, eval_toplevel, Host, Trace, M}
use r_oss_fuzz.Host.Session.{session}
use r_oss_fuzz.Targets.Decompress
use r_oss_fuzz.Targets.Unserialize
use r_oss_fuzz.Targets.Connections
use r_oss_fuzz.Targets.Zip
use r_oss_fuzz.Targets.Load

pub data RawTarget : Type 0 where
  decompress unserialize connections zip load : RawTarget

abbrev pub run : RawTarget → Host → Bytes → M (Unit {0})
run decompress = Decompress.run
run unserialize = Unserialize.run
run connections = Connections.run
run zip = Zip.run
run load = Load.run

abbrev pub n_calls : RawTarget → ℕ
n_calls decompress = 4
n_calls unserialize = 4
n_calls connections = 66
n_calls zip = 4
n_calls load = 2

-- The byte that picks the slot: the last one for unserialize, the first one for the others.
abbrev pub last : ℕ → Bytes → ℕ
last b [] = b
last b (c ∷ l) = last c l

abbrev pub selector : RawTarget → ℕ → Bytes → ℕ
selector unserialize b p = last b p % 4
selector k b p = b % n_calls k

-- What is staged, in order. Only unserialize keeps its selector in the payload.
abbrev pub stages : RawTarget → ℕ → Bytes → List Op
stages decompress b p = set_raw_arg (b % 4) p ∷ []
stages unserialize b p = set_raw_arg (last b p % 4) (b ∷ p) ∷ []
stages connections b p = write_scratch p ∷ set_raw_arg (b % 66) p ∷ []
stages zip b p = write_scratch p ∷ []
stages load b p = write_scratch p ∷ []

abbrev pub evaluation : RawTarget → ℕ → Op
evaluation decompress i = eval_toplevel i
evaluation k i = eval_silent i

abbrev pub in_size : Bytes → Bool
in_size input = leb 2 (length input) && leb (length input) (1024 * 64)

get_elem?-last : (b : ℕ) (p : Bytes) → get_elem? (b ∷ p) (length p) ≡ some (last b p)
get_elem?-last b [] = refl
get_elem?-last b (c ∷ p) = get_elem?-last c p

-- For each of these targets, every input and every behaviour of R and of the file system: no index is
-- out of range; an input outside the size limits does nothing; any other one is staged whole, and
-- only if all of that succeeds is the selected call evaluated.
pub raw_run-session :
    (k : RawTarget) (h : Host) (b : ℕ) (p : Bytes) (t : Trace)
    → run k h (b ∷ p) t
      ≡ some (
        tt,
        if in_size (b ∷ p)
            then session h (stages k b p) (evaluation k (selector k b p) ∷ []) t
            else t,
      )
unfolding Decompress.run Unserialize.run Connections.run Zip.run Load.run session
raw_run-session decompress h b p t = ground arith
raw_run-session unserialize h b p t = ground (arith, get_elem?-last b p)
raw_run-session connections h b p t = ground arith
raw_run-session zip h b p t = ground arith
raw_run-session load h b p t = ground arith
