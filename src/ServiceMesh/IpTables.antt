-- ===== src/ServiceMesh/IpTables.antt =====
-- service-mesh/iptables.go: IngressIPTableRules. Every rule is one of the mangle table and has the
-- match "-p tcp". github.com/coreos/go-iptables is a parameter.
use contrast.Prelude.{
  Result, ok, ◌>>=◌, Option, none, some, Bool, true, false, ℕ, List, [], ◌∷◌, if◌then◌else◌,
}
use contrast.ServiceMesh.{IngressConfigEntry, envoy_ingress_port, envoy_ingress_port_no_client_cert}

pub data Chain : Type 0 where
  prerouting contrast_inbound contrast_in_redirect : Chain

-- The target of a rule; TPROXY has the port of "--on-port".
pub data Target : Type 0 where
  jump : Chain → Target
  back : Target
  tproxy : ℕ → Target

-- "-i lo"; "-m conntrack --ctstate RELATED,ESTABLISHED"; "--dport"
pub record Rule : Type 0 where
  pub local_only : Bool
  pub established_only : Bool
  pub dport : Option ℕ
  pub target : Target

abbrev pub any_tcp : Target → Rule
any_tcp target = record {
  local_only = false;
  established_only = false;
  dport = none;
  target = target;
}

-- A client of iptables over the tables of a type.
pub record IpTables (T : Type 0) : Type 0 where
  -- NewChain, whose error is not looked at
  pub new_chain : Chain → T → T
  -- AppendUnique
  pub append_unique : Chain → Rule → T → Result T

abbrev pub inbound_rules : List (Chain × Rule)
inbound_rules =
    (prerouting, any_tcp (jump contrast_inbound))
    ∷ (
      contrast_inbound,
      record { local_only = true; established_only = false; dport = none; target = back },
    )
    ∷ (
      contrast_inbound,
      record { local_only = false; established_only = true; dport = none; target = back },
    )
    ∷ (contrast_inbound, any_tcp (jump contrast_in_redirect))
    ∷ []

-- The rule of an entry: no TLS at all, or TLS without client certificates.
abbrev pub rule_of : IngressConfigEntry → Rule
rule_of e = record {
  local_only = false;
  established_only = false;
  dport = some e.listen_port;
  target = if e.disable_tls then back else tproxy envoy_ingress_port_no_client_cert;
}

abbrev pub entry_rules : List IngressConfigEntry → List (Chain × Rule)
entry_rules [] = []
entry_rules (e ∷ entries) = (contrast_in_redirect, rule_of e) ∷ entry_rules entries

module _ {T : Type 0} (iptables : IpTables T) where
  -- A loop over rules that stops at the first error.
  unfoldable pub append_all : List (Chain × Rule) → T → Result T
  append_all [] t = ok t
  append_all ((c, r) ∷ rules) t = iptables.append_unique c r t >>= λ t. append_all rules t

  -- IngressIPTableRules
  unfoldable pub ingress_ip_table_rules : List IngressConfigEntry → T → Result T
  unfolding append_all
  ingress_ip_table_rules entries t = do
    t ←
        append_all inbound_rules
          (iptables.new_chain contrast_in_redirect (iptables.new_chain contrast_inbound t))
    t ← append_all (entry_rules entries) t
    iptables.append_unique contrast_in_redirect (any_tcp (tproxy envoy_ingress_port)) t
