-- ===== src/ServiceMesh.antt =====
-- service-mesh: the sidecar that puts Envoy before a workload. Its configuration is read from three
-- texts (ServiceMesh/Config), turned into a configuration of Envoy (ServiceMesh/Envoy) and into rules
-- for the packet filter (ServiceMesh/IpTables). main.go runs these in this order. Logging, the files
-- that are written, and the start of Envoy are not modelled.
pub mod Config
pub mod Ports
pub mod Messages
pub mod Envoy
pub mod Listeners
pub mod IpTables
pub mod Routes
use contrast.Prelude.{Bytes, Bool, Option, ℕ, List}

-- config.go: an address is its text.
pub record EgressConfigEntry : Type 0 where
  pub name : Bytes
  pub cluster_name : Bytes
  pub listen_addr : Bytes
  pub listen_port : ℕ
  pub remote_domain : Bytes
  pub remote_port : ℕ

pub record IngressConfigEntry : Type 0 where
  pub name : Bytes
  pub listen_port : ℕ
  pub disable_tls : Bool

pub record ProxyConfig : Type 0 where
  pub egress : List EgressConfigEntry
  pub ingress : List IngressConfigEntry
  pub admin_port : ℕ
  pub ingress_disabled : Bool

-- iptables.go: the ports of Envoy, with and without client certificates.
abbrev pub envoy_ingress_port : ℕ
envoy_ingress_port = 15006

abbrev pub envoy_ingress_port_no_client_cert : ℕ
envoy_ingress_port_no_client_cert = 15007
