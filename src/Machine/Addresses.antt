-- ===== src/Machine/Addresses.antt =====
-- The addresses that a machine reports.
use omj_agent.Base.{
  ◌≡◌, refl, sym, Bool, true, false, not, ◌&&◌, Option, none, some, List, [], ◌∷◌, ◌++◌, take,
  if◌then◌else◌, arith, Bool-cases, inl, inr, append-nil, append_assoc,
}
use omj_agent.Text.{Text, contains_text}
use omj_agent.Machine.{Ip, NetInterface, Found, keep_ip, see, see_all, see_interfaces, select_ips}

-- The global unicast addresses among those of an interface.
abbrev pub global_addrs : List (Option Ip) → List Ip
global_addrs [] = []
global_addrs (none ∷ addrs) = global_addrs addrs
global_addrs (some ip ∷ addrs) =
    let rest = global_addrs addrs in if ip.global_unicast then ip ∷ rest else rest

-- The addresses by which others reach the machine: those of interfaces that are up and no loopback.
abbrev pub reachable : List NetInterface → List Ip
reachable [] = []
reachable (i ∷ ifaces) =
    let rest = reachable ifaces in
    if i.up && not i.loopback then global_addrs i.addrs ++ rest else rest

-- Each text once, at its first place.
abbrev pub first_places : List Text → List Ip → List Ip
first_places seen [] = []
first_places seen (ip ∷ ips) =
    let again = first_places seen ips in
    let fresh = first_places (ip.text ∷ seen) ips in
    if contains_text seen ip.text then again else ip ∷ fresh

abbrev pub texts_where : (Ip → Bool) → List Ip → List Text
texts_where p [] = []
texts_where p (ip ∷ ips) = let rest = texts_where p ips in if p ip then ip.text ∷ rest else rest

abbrev see_each : List Ip → Found → Found
see_each [] f = f
see_each (ip ∷ ips) f = see_each ips (keep_ip ip f)

see_each-append :
    (xs ys : List Ip) (f : Found) → see_each (xs ++ ys) f ≡ see_each ys (see_each xs f)
see_each-append [] ys f = refl
see_each-append (x ∷ xs) ys f = see_each-append xs ys (keep_ip x f)

see_all-global :
    (addrs : List (Option Ip)) (f : Found) → see_all addrs f ≡ see_each (global_addrs addrs) f
unfolding see
see_all-global [] f = refl
see_all-global (none ∷ addrs) f = see_all-global addrs f
see_all-global (some ip ∷ addrs) f = elim (Bool-cases ip.global_unicast) [
  | inl t ↦ ground (arith, t, see_all-global addrs (keep_ip ip f))
  | inr u ↦ ground (arith, u, see_all-global addrs f)
]

see_interfaces-reachable :
    (ifaces : List NetInterface) (f : Found)
    → see_interfaces ifaces f ≡ see_each (reachable ifaces) f
see_interfaces-reachable [] f = refl
see_interfaces-reachable (i ∷ ifaces) f = ground (
  arith,
  see_interfaces-reachable ifaces f,
  see_interfaces-reachable ifaces (see_all i.addrs f),
  see_each-append (global_addrs i.addrs) (reachable ifaces) f,
  see_all-global i.addrs f,
)

module _ (ip : Ip) (f : Found) where
  keep_seen : contains_text f.seen ip.text ≡ true → keep_ip ip f ≡ f
  unfolding keep_ip
  keep_seen h = rw h refl

  keep_fresh :
      contains_text f.seen ip.text ≡ false
      → ((keep_ip ip f).seen ≡ ip.text ∷ f.seen)
        × ((keep_ip ip f).v4 ≡ (if ip.v4 then f.v4 ++ ip.text ∷ [] else f.v4))
        × ((keep_ip ip f).v6 ≡ (if ip.v4 then f.v6 else f.v6 ++ ip.text ∷ []))
  unfolding keep_ip
  keep_fresh h = ground (arith, h)

see_each-v4 :
    (ips : List Ip) (f : Found)
    → (see_each ips f).v4 ≡ f.v4 ++ texts_where (λ ip. ip.v4) (first_places f.seen ips)
see_each-v4 [] f = sym (append-nil f.v4)
see_each-v4 (ip ∷ ips) f = elim (Bool-cases (contains_text f.seen ip.text)) [
  | inl t ↦ ground (arith, t, keep_seen ip f t, see_each-v4 ips f)
  | inr u ↦
      let next = first_places (ip.text ∷ f.seen) ips in
      ground (
        arith,
        u,
        keep_fresh ip f u,
        see_each-v4 ips (keep_ip ip f),
        append_assoc f.v4 (ip.text ∷ []) (texts_where (λ ip. ip.v4) next),
      )
]

see_each-v6 :
    (ips : List Ip) (f : Found)
    → (see_each ips f).v6 ≡ f.v6 ++ texts_where (λ ip. not ip.v4) (first_places f.seen ips)
see_each-v6 [] f = sym (append-nil f.v6)
see_each-v6 (ip ∷ ips) f = elim (Bool-cases (contains_text f.seen ip.text)) [
  | inl t ↦ ground (arith, t, keep_seen ip f t, see_each-v6 ips f)
  | inr u ↦
      let next = first_places (ip.text ∷ f.seen) ips in
      ground (
        arith,
        u,
        keep_fresh ip f u,
        see_each-v6 ips (keep_ip ip f),
        append_assoc f.v6 (ip.text ∷ []) (texts_where (λ ip. not ip.v4) next),
      )
]

-- A machine reports the first 16 of its reachable addresses, each text once, those of IPv4 before those
-- of IPv6, and else in the order of its interfaces.
pub select_ips-reachable :
    (ifaces : List NetInterface)
    → let ips = first_places [] (reachable ifaces) in
      select_ips ifaces
      ≡ take 16 (texts_where (λ ip. ip.v4) ips ++ texts_where (λ ip. not ip.v4) ips)
unfolding select_ips
select_ips-reachable ifaces =
    let start : Found = record { seen = []; v4 = []; v6 = [] } in
    rw
      (
        see_interfaces-reachable ifaces start,
        see_each-v4 (reachable ifaces) start,
        see_each-v6 (reachable ifaces) start,
      )
      refl
