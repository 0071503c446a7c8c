-- ===== src/Tests/Meshes.antt =====
-- The service mesh, at concrete inputs.
use contrast.Prelude.{
  Bytes, codes, Result, ok, none, some, true, false, ℕ, ◌<◌, List, [], ◌∷◌, ◌≡◌, refl, sym, ◌∙◌, ap,
  ok-injective, arith, if◌then◌else◌, subst,
}
use contrast.Prelude.Decimals
use contrast.ServiceMesh.{IngressConfigEntry, ProxyConfig}
use contrast.ServiceMesh.Config
use contrast.ServiceMesh.Config.{Net, parse_proxy_config}
use contrast.ServiceMesh.Ports.{NetLaws, IsConfig, parse_proxy_config-IsConfig}
use contrast.ServiceMesh.Envoy
use contrast.ServiceMesh.Messages.{Bootstrap}
use contrast.ServiceMesh.Envoy.{Protobuf, bootstrap}
use contrast.ServiceMesh.Listeners.{IsGuarding, bootstrap-IsGuarding}
use contrast.ServiceMesh.IpTables
use contrast.ServiceMesh.IpTables.{
  Chain, prerouting, contrast_inbound, contrast_in_redirect, Rule, Target, jump, back, tproxy,
  IpTables, ingress_ip_table_rules,
}
use contrast.ServiceMesh.Routes.{
  appended, same_chain, IpTablesLaws, Packet, first_match, ingress_ip_table_rules-target_for,
  ingress_ip_table_rules_again,
}

-- One address, and one way to write a host and a port.
abbrev net : Net
net = record {
  parse_addr_port = λ s. some (codes "127.137.0.1", 8081);
  loopback_contains = λ addr. true;
  split_host_port = λ s. some (codes "emoji-svc", codes "8080");
}

net-NetLaws : NetLaws net
net-NetLaws s addr port h =
    let same : (codes "127.137.0.1", 8081) ≡ (addr, port) = cc in
    subst (λ (p : Bytes × ℕ). p.1 < 65536) same (omega arith)

abbrev egress_text : Bytes
egress_text = codes "emoji#127.137.0.1:8081#emoji-svc:8080"

-- The port of the second entry does not fit into 16 bits.
abbrev ingress_text : Bytes
ingress_text = codes "web#8080#false##probe#65616#true"

abbrev entries : List IngressConfigEntry
entries =
    record { name = codes "web"; listen_port = 8080; disable_tls = false }
    ∷ record { name = codes "probe"; listen_port = 80; disable_tls = true }
    ∷ []

abbrev config : ProxyConfig
config = record {
  egress =
      record {
        name = codes "emoji";
        cluster_name = codes "emoji";
        listen_addr = codes "127.137.0.1";
        listen_port = 8081;
        remote_domain = codes "emoji-svc";
        remote_port = 8080;
      }
      ∷ [];
  ingress = entries;
  admin_port = 0;
  ingress_disabled = false;
}

parsed : parse_proxy_config net ingress_text egress_text [] ≡ ok config
unfolding Decimals.read_digits Config.split Config.atoi Config.parse_bool Config.parse_egress_entry
    Config.parse_ingress_entry Config.parse_entries Config.parse_admin_port parse_proxy_config
parsed = refl

parse_proxy_config-IsConfig_example : IsConfig net config
parse_proxy_config-IsConfig_example =
    parse_proxy_config-IsConfig net net-NetLaws ingress_text egress_text [] parsed

abbrev pb : Protobuf
pb = record { packs = λ t. true; validate_all = λ b. true; marshal = λ b. some [] }

abbrev envoy : Result Bootstrap → Bootstrap
envoy (ok b) = b
envoy _ = record { admin = none; listeners = []; clusters = [] }

abbrev generated : Bootstrap
unfolding bootstrap
generated = envoy (bootstrap pb config)

generates : bootstrap pb config ≡ ok generated
unfolding Envoy.listener Envoy.upstream_tls_transport_socket Envoy.downstream_tls_transport_socket
    Envoy.cluster Envoy.ingress_listener Envoy.black_hole_filter Envoy.filter_chain_matcher
    Envoy.add_black_hole Envoy.each Envoy.add_black_hole_to_config bootstrap generated
generates = refl

bootstrap-IsGuarding_example : IsGuarding config generated
bootstrap-IsGuarding_example = bootstrap-IsGuarding pb config refl generates

-- Tables as three lists of rules.
abbrev Tables : Type 0
Tables = List Rule × List Rule × List Rule

abbrev rules : Tables → Chain → List Rule
rules t prerouting = t.0
rules t contrast_inbound = t.1
rules t contrast_in_redirect = t.2

abbrev added : Chain → Rule → Tables → Tables
added prerouting r t = (appended r t.0, t.1, t.2)
added contrast_inbound r t = (t.0, appended r t.1, t.2)
added contrast_in_redirect r t = (t.0, t.1, appended r t.2)

abbrev iptables : IpTables Tables
iptables = record { new_chain = λ c t. t; append_unique = λ c r t. ok (added c r t) }

rules-added :
    (c : Chain) (r : Rule) (t : Tables) (d : Chain)
    → rules (added c r t) d ≡ (if same_chain c d then appended r (rules t d) else rules t d)
rules-added prerouting r t prerouting = refl
rules-added prerouting r t contrast_inbound = refl
rules-added prerouting r t contrast_in_redirect = refl
rules-added contrast_inbound r t prerouting = refl
rules-added contrast_inbound r t contrast_inbound = refl
rules-added contrast_inbound r t contrast_in_redirect = refl
rules-added contrast_in_redirect r t prerouting = refl
rules-added contrast_in_redirect r t contrast_inbound = refl
rules-added contrast_in_redirect r t contrast_in_redirect = refl

iptables-IpTablesLaws : IpTablesLaws iptables rules
iptables-IpTablesLaws = record {
  new_chain = λ c d t. refl;
  append_unique = λ c r t d e. ap (λ s. rules s d) (sym (ok-injective e)) ∙ rules-added c r t d;
}

abbrev empty : Tables
empty = ([], [], [])

none_yet : (d : Chain) → rules empty d ≡ []
none_yet prerouting = refl
none_yet contrast_inbound = refl
none_yet contrast_in_redirect = refl

abbrev tables : Result Tables → Tables
tables (ok t) = t
tables _ = empty

abbrev after : Tables
unfolding ingress_ip_table_rules
after = tables (ingress_ip_table_rules iptables entries empty)

runs : ingress_ip_table_rules iptables entries empty ≡ ok after
unfolding IpTables.append_all ingress_ip_table_rules after
runs = refl

abbrev packet : Packet
packet = record { is_local = false; is_established = false; dport = 80 }

ingress_ip_table_rules-target_for_example :
    (first_match packet (rules after prerouting) ≡ some (jump contrast_inbound))
    × (first_match packet (rules after contrast_inbound) ≡ some (jump contrast_in_redirect))
    × (first_match packet (rules after contrast_in_redirect) ≡ some back)
ingress_ip_table_rules-target_for_example =
    ingress_ip_table_rules-target_for iptables rules iptables-IpTablesLaws packet entries empty
      none_yet runs

-- A second run, for no entry at all.
abbrev again : Tables
unfolding ingress_ip_table_rules after
again = tables (ingress_ip_table_rules iptables [] after)

runs_again : ingress_ip_table_rules iptables [] after ≡ ok again
unfolding IpTables.append_all ingress_ip_table_rules after again
runs_again = refl

ingress_ip_table_rules_again_example :
    first_match packet (rules again contrast_in_redirect)
    ≡ first_match packet (rules after contrast_in_redirect)
ingress_ip_table_rules_again_example =
    ingress_ip_table_rules_again iptables rules iptables-IpTablesLaws packet entries [] empty
      contrast_in_redirect runs runs_again
