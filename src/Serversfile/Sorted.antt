-- ===== src/Serversfile/Sorted.antt =====
-- internal/serversfile/serversfile.go, `sortServers`.
use mathlib.Core.List.{Perm}
use gluetun_proton_list_upda.Prelude.{
  ◌≡◌, Bool, true, false, not, String, str_eq, str_eq_iff, List, if◌then◌else◌, arith,
}
use gluetun_proton_list_upda.Prelude.Sort.{
  IsSorted, IsWeakOrder, sort_stable-perm, sort_stable-IsSorted,
}
use gluetun_proton_list_upda.Prelude.Text.{str_ltb, str_ltb-IsWeakOrder, str_ltb_total}
use gluetun_proton_list_upda.Serversfile.{Server}
use gluetun_proton_list_upda.Serversfile.Write.{server_less, sort_servers}

-- One key before the rest of an order.
module _ (first : Server → String) (rest : Server → Server → Bool) (order : IsWeakOrder rest) where
  abbrev by_key : Server → Server → Bool
  by_key a b = if not (str_eq (first a) (first b)) then str_ltb (first a) (first b) else rest a b

  by_key_asym : (a b : Server) → by_key a b ≡ true → by_key b a ≡ false
  by_key_asym a b h = ground (
    arith,
    str_eq_iff (first a) (first b),
    str_eq_iff (first b) (first a),
    str_ltb-IsWeakOrder.asym (first a) (first b),
    order.asym a b,
  )

  by_key_trans : (a b c : Server) → by_key b a ≡ false → by_key c b ≡ false → by_key c a ≡ false
  by_key_trans a b c h k = ground (
    arith,
    str_eq_iff (first b) (first a),
    str_eq_iff (first c) (first b),
    str_eq_iff (first c) (first a),
    str_ltb-IsWeakOrder.not_less_trans (first a) (first b) (first c),
    str_ltb_total (first b) (first c),
    str_ltb_total (first a) (first b),
    str_ltb-IsWeakOrder.asym (first a) (first b),
    str_ltb-IsWeakOrder.asym (first b) (first c),
    str_ltb-IsWeakOrder.asym (first c) (first a),
    order.not_less_trans a b c,
  )

  by_key-IsWeakOrder : IsWeakOrder by_key
  by_key-IsWeakOrder = record { asym = by_key_asym; not_less_trans = by_key_trans }

by_protocol-IsWeakOrder : IsWeakOrder (λ (a b : Server). str_ltb a.vpn b.vpn)
by_protocol-IsWeakOrder = record {
  asym = λ a b h. str_ltb-IsWeakOrder.asym a.vpn b.vpn h;
  not_less_trans = λ a b c h k. str_ltb-IsWeakOrder.not_less_trans a.vpn b.vpn c.vpn h k;
}

server_less-IsWeakOrder : IsWeakOrder server_less
unfolding server_less
server_less-IsWeakOrder =
    by_key-IsWeakOrder (λ s. s.country) _
      (by_key-IsWeakOrder (λ s. s.city) _
        (by_key-IsWeakOrder (λ s. s.server_name) _
          (by_key-IsWeakOrder (λ s. s.hostname) _ by_protocol-IsWeakOrder)))

-- The servers in a written file are those given, each as often, in an order where no server comes
-- before one that is less by country, then city, then name, then hostname, then protocol.
pub sort_servers_ordered :
    (servers : List Server)
    → Perm (sort_servers servers) servers × IsSorted server_less (sort_servers servers)
unfolding sort_servers
sort_servers_ordered servers = (
  sort_stable-perm server_less servers,
  sort_stable-IsSorted server_less server_less-IsWeakOrder servers,
)
