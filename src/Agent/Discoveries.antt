-- ===== src/Agent/Discoveries.antt =====
-- internal/agent/discovery.go: which of the server's requests to report scheduled work are answered.
-- Requests and the ends of reports come in any order: a step relation.
pub mod Payload
pub mod Single
use omj_agent.Base.{
  ℕ, suc, ◌+◌, ◌≡◌, Bool, true, false, not, ◌||◌, ◌&&◌, Option, none, some, if◌then◌else◌, is_some,
}
use omj_agent.Client.Errors.{ClientError, is_not_found}

-- `running` counts the goroutines between `begin` and `end`.
pub record Discoveries : Type 0 where
  pub in_flight : Bool
  pub unsupported : Bool
  pub running : ℕ

unfoldable pub new_discoveries : Discoveries
new_discoveries = record { in_flight = false; unsupported = false; running = 0 }

unfoldable pub begin : Discoveries → Bool × Discoveries
begin d = if d.in_flight || d.unsupported then (false, d) else (true, record d { in_flight = true })

unfoldable pub end : Bool → Discoveries → Discoveries
end unsupported d =
    let d' = record d { in_flight = false } in
    if unsupported then record d' { unsupported = true } else d'

-- `discoverIfAsked`, which starts a report where `begin` lets it.
unfoldable pub discover_if_asked : Bool → Discoveries → Discoveries
discover_if_asked requested d =
    if not requested || not (begin d).0
    then d
    else (let d' = (begin d).1 in record d' { running = suc d'.running })

-- `report`, from whether the collection failed, what the server answered and whether the agent is
-- stopping.
unfoldable pub report : Bool → Option ClientError → Bool → Bool
report failed answer stopping =
    if failed
    then false
    else elim answer [ none ↦ false | some err ↦ if stopping then false else is_not_found err ]

-- A report that is running ends with what `report` says.
pub data Step : Discoveries → Discoveries → Type 0 where
  asks : (d : Discoveries) (requested : Bool) → Step d (discover_if_asked requested d)
  ends :
      (d : Discoveries) (n : ℕ) (failed : Bool) (answer : Option ClientError) (stopping : Bool)
      → d.running ≡ suc n
      → Step d (record (end (report failed answer stopping) d) { running = n })

pub data Reaches : Discoveries → Discoveries → Type 0 where
  stay : (d : Discoveries) → Reaches d d
  after : (d e f : Discoveries) → Step d e → Reaches e f → Reaches d f
