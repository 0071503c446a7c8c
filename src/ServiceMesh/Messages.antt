-- ===== src/ServiceMesh/Messages.antt =====
-- service-mesh/config.go: the messages of Envoy's API, with the fields that the source sets.
use contrast.Prelude.{Bytes, Bool, Option, ℕ, List}

pub record SocketAddress : Type 0 where
  pub address : Bytes
  pub port_value : ℕ

pub record CommonTlsContext : Type 0 where
  pub private_key : Bytes
  pub certificate_chain : Bytes
  pub trusted_ca : Bytes

pub data Typed : Type 0 where
  tcp_proxy : Bytes → Bytes → Typed
  original_dst : Typed
  upstream_tls : CommonTlsContext → Typed
  downstream_tls : CommonTlsContext → Bool → Typed
  string_value : Bytes → Typed
  destination_port_input : Typed

-- A filter, a listener filter, a transport socket, or another extension.
pub record Extension : Type 0 where
  pub name : Bytes
  pub typed_config : Typed

pub record FilterChain : Type 0 where
  pub name : Bytes
  pub filters : List Extension
  pub transport_socket : Option Extension

-- A matcher tree with an exact match map.
pub record Matcher : Type 0 where
  pub input : Extension
  pub exact_match_map : List (Bytes × Extension)
  pub on_no_match : Extension

pub record Listener : Type 0 where
  pub name : Bytes
  pub address : SocketAddress
  pub filter_chains : List FilterChain
  pub listener_filters : List Extension
  pub transparent : Bool
  pub filter_chain_matcher : Option Matcher

pub data DiscoveryType : Type 0 where
  static logical_dns original_destination : DiscoveryType

pub record Cluster : Type 0 where
  pub name : Bytes
  pub discovery_type : DiscoveryType
  pub v4_only : Bool
  pub cluster_provided : Bool
  pub load_assignment : Option (Bytes × SocketAddress)
  pub transport_socket : Option Extension
  pub connect_timeout : Option ℕ

pub record Bootstrap : Type 0 where
  pub admin : Option SocketAddress
  pub listeners : List Listener
  pub clusters : List Cluster
