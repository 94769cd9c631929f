-- ===== src/Agent/Discoveries/Single.antt =====
-- Reports of scheduled work in internal/agent/discovery.go do not overlap.
use omj_agent.Base.{◌≡◌, refl, true, false, some, if◌then◌else◌, arith}
use omj_agent.Client.Errors.{ClientError, is_not_found}
use omj_agent.Agent.Discoveries.{
  Discoveries, new_discoveries, begin, end, discover_if_asked, report, Step, asks, ends, Reaches,
  stay, after,
}

-- A report is running exactly while the flag says so.
abbrev IsCounted : Discoveries → Type 0
IsCounted d = d.running ≡ (if d.in_flight then 1 else 0)

step-IsCounted : (d e : Discoveries) → Step d e → IsCounted d → IsCounted e
unfolding discover_if_asked begin end
step-IsCounted d e (asks _ requested) h = ground (arith, h)
step-IsCounted d e (ends _ n failed answer stopping r) h = ground (arith, h, r)

Reaches-IsCounted : (d e : Discoveries) → Reaches d e → IsCounted d → IsCounted e
Reaches-IsCounted d e (stay _) h = h
Reaches-IsCounted d e (after _ m _ s r) h = Reaches-IsCounted m e r (step-IsCounted d m s h)

step-unsupported :
    (d e : Discoveries)
    → Step d e
    → d.unsupported ≡ true
    → (e.unsupported ≡ true) × (d.running ≡ 0 → e.running ≡ 0)
unfolding discover_if_asked begin end
step-unsupported d e (asks _ requested) h = ground (arith, h)
step-unsupported d e (ends _ n failed answer stopping r) h = ground (arith, h, r)

Reaches-unsupported :
    (d e : Discoveries) → Reaches d e → d.unsupported ≡ true → d.running ≡ 0 → e.running ≡ 0
Reaches-unsupported d e (stay _) h z = z
Reaches-unsupported d e (after _ m _ s r) h z =
    let (u, q) = step-unsupported d m s h in Reaches-unsupported m e r u (q z)

-- However requests and the ends of reports interleave, no two reports run at once; and once a report
-- has ended that the server answered with a 404, the agent not stopping, no report runs again.
pub Reaches-single :
    (d : Discoveries)
    → Reaches new_discoveries d
    → (d.running ≡ (if d.in_flight then 1 else 0))
      × ((err : ClientError) (e : Discoveries)
          → d.running ≡ 1
          → is_not_found err ≡ true
          → Reaches (record (end (report false (some err) false) d) { running = 0 }) e
          → e.running ≡ 0)
unfolding new_discoveries end report
Reaches-single d r = (
  Reaches-IsCounted new_discoveries d r refl,
  λ err e one missing r'. Reaches-unsupported _ e r' (ground (arith, missing)) refl,
)
