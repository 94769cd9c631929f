-- ===== src/Protocol/Statuses.antt =====
-- How the status tests of internal/protocol/enums.go relate.
use omj_agent.Base.{String, true, false, ◌≡◌, ◌&&◌, not, str_eq, eq_iff, arith, refl}
use omj_agent.Protocol.{
  RunStatus, run_status_success, run_status_failed, run_status_timed_out, run_status_cancelled,
  run_status_lost, run_status_missed, is_terminal, is_reportable,
}

str_eq_excl : (s a b : String) → str_eq a b ≡ false → str_eq s a ≡ true → str_eq s b ≡ false
str_eq_excl s a b ne e = ground (arith, eq_iff s a, eq_iff s b, eq_iff a b)

is_reportable_excl : (s : RunStatus) → is_reportable s ≡ true → str_eq s run_status_missed ≡ false
unfolding is_reportable
is_reportable_excl s h = ground (
  arith,
  str_eq_excl s run_status_success run_status_missed refl,
  str_eq_excl s run_status_failed run_status_missed refl,
  str_eq_excl s run_status_timed_out run_status_missed refl,
  str_eq_excl s run_status_cancelled run_status_missed refl,
  str_eq_excl s run_status_lost run_status_missed refl,
)

-- A status can be reported exactly if it is terminal and not `missed`.
pub is_reportable-terminal :
    (s : RunStatus) → is_reportable s ≡ (is_terminal s && not (str_eq s run_status_missed))
unfolding is_terminal is_reportable
is_reportable-terminal s = ground (arith, is_reportable_excl s)
