-- ===== src/Machine/Examples.antt =====
-- The theorem about internal/sysinfo at a concrete input.
use omj_agent.Base.{◌≡◌, true, false, not, some, [], ◌∷◌, ◌++◌, take}
use omj_agent.Text.{codes}
use omj_agent.Machine.{Ip, NetInterface, select_ips}
use omj_agent.Machine.Addresses.{reachable, first_places, texts_where, select_ips-reachable}

abbrev private_v4 : Ip
private_v4 = record { text = codes "10.0.0.2"; global_unicast = true; v4 = true }

abbrev public_v6 : Ip
public_v6 = record { text = codes "2001:db8::1"; global_unicast = true; v4 = false }

abbrev ethernet : NetInterface
ethernet = record {
  up = true;
  loopback = false;
  addrs = some public_v6 ∷ some private_v4 ∷ some private_v4 ∷ [];
}

select_ips-reachable_example :
    select_ips (ethernet ∷ [])
    ≡ take 16 (
        texts_where (λ ip. ip.v4) (first_places [] (reachable (ethernet ∷ [])))
        ++ texts_where (λ ip. not ip.v4) (first_places [] (reachable (ethernet ∷ []))))
select_ips-reachable_example = select_ips-reachable (ethernet ∷ [])
