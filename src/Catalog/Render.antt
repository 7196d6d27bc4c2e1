-- ===== src/Catalog/Render.antt =====
-- internal/catalog/catalog.go, `ToGluetunServers`: the entries that candidates are written as.
use gluetun_proton_list_upda.Prelude.{
  String, Bool, true, false, not, ◌≡◌, refl, ap, List, [], ◌∷◌, str_eq, if◌then◌else◌, map, keep,
  Bool-cases, inl, inr,
}
use gluetun_proton_list_upda.Prelude.Addr.{is_valid}
use gluetun_proton_list_upda.Catalog.{Candidate, vpn_wireguard, vpn_openvpn}
use gluetun_proton_list_upda.Serversfile.{Server}

abbrev pub of_protocol : String → List Server → List Server
of_protocol vpn servers = keep (λ (s : Server). str_eq s.vpn vpn) servers

module _ {F : Type 0} where
  abbrev base : Candidate F → Server
  base c = record {
    vpn = "";
    country = c.country;
    region = c.region;
    city = c.city;
    server_name = c.server_name;
    hostname = c.hostname;
    tcp = false;
    udp = false;
    wg_pub_key = "";
    free = c.free;
    stream = c.stream;
    secure_core = c.secure_core;
    tor = c.tor;
    port_forward = c.p2p;
    ips = c.entry_ip ∷ (if is_valid c.entry_ipv6 then c.entry_ipv6 ∷ [] else []);
  }

  abbrev pub openvpn_entry : Candidate F → Server
  openvpn_entry c = record (base c) { vpn = vpn_openvpn; tcp = true; udp = true }

  abbrev pub wireguard_entry : Candidate F → Server
  wireguard_entry c = record (base c) { vpn = vpn_wireguard; wg_pub_key = c.wg_pub_key }

  abbrev pub has_key : Candidate F → Bool
  has_key c = not (str_eq c.wg_pub_key "")

  unfoldable pub to_gluetun_servers : List (Candidate F) → List Server
  to_gluetun_servers [] = []
  to_gluetun_servers (c ∷ cs) =
      let rest = to_gluetun_servers cs in
      openvpn_entry c ∷ (if has_key c then wireguard_entry c ∷ rest else rest)

  -- The OpenVPN entries are one for each candidate, the WireGuard entries one for each candidate
  -- that has a key, both in the order of the candidates and with what these hold.
  pub of_protocol-to_gluetun_servers :
      (cs : List (Candidate F))
      → (of_protocol vpn_openvpn (to_gluetun_servers cs) ≡ map openvpn_entry cs)
        × (of_protocol vpn_wireguard (to_gluetun_servers cs)
            ≡ map wireguard_entry (keep has_key cs))
  unfolding to_gluetun_servers
  of_protocol-to_gluetun_servers [] = (refl, refl)
  of_protocol-to_gluetun_servers (c ∷ cs) =
      let (o, w) = of_protocol-to_gluetun_servers cs in
      elim (Bool-cases (has_key c)) [
        | inl t ↦ rw t (ap (λ x. openvpn_entry c ∷ x) o, ap (λ x. wireguard_entry c ∷ x) w)
        | inr f ↦ rw f (ap (λ x. openvpn_entry c ∷ x) o, w)
      ]
