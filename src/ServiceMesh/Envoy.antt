-- ===== src/ServiceMesh/Envoy.antt =====
-- service-mesh/config.go: ToEnvoyConfig, over the messages of ServiceMesh/Messages. A filter, an action
-- or a socket has its typed configuration, which anypb.New has packed.
use contrast.Prelude.{
  some_or, Bytes, codes, Result, ok, err, other, ◌>>=◌, ◌>>◌, Option, none, some, Bool, true, false,
  not, ◌||◌, ℕ, List, [], ◌∷◌, ◌++◌, ◌==◌, if◌then◌else◌, guard,
}
use contrast.Prelude.Decimals.{format_decimal}
use contrast.ServiceMesh.Messages.{
  SocketAddress, CommonTlsContext, Typed, tcp_proxy, original_dst, upstream_tls, downstream_tls,
  string_value, destination_port_input, Extension, FilterChain, Matcher, Listener, static,
  logical_dns, original_destination, Cluster, Bootstrap,
}
use contrast.ServiceMesh.{
  EgressConfigEntry, ProxyConfig, envoy_ingress_port, envoy_ingress_port_no_client_cert,
}

abbrev pub black_hole_cluster_name : Bytes
black_hole_cluster_name = codes "BlackHoleCluster"

abbrev pub ingress_cluster_name : Bytes
ingress_cluster_name = codes "IngressCluster"

abbrev pub black_hole_filter_name : Bytes
black_hole_filter_name = codes "BlackHoleFilter"

abbrev pub common_tls_context : CommonTlsContext
common_tls_context = record {
  private_key = codes "/contrast/tls-config/key.pem";
  certificate_chain = codes "/contrast/tls-config/certChain.pem";
  trusted_ca = codes "/contrast/tls-config/mesh-ca.pem";
}

-- google.golang.org/protobuf and the validation that Envoy's API generates.
pub record Protobuf : Type 0 where
  -- anypb.New succeeds
  pub packs : Typed → Bool
  -- Bootstrap.ValidateAll finds nothing
  pub validate_all : Bootstrap → Bool
  -- protojson.Marshal
  pub marshal : Bootstrap → Option Bytes

abbrev pub with_socket : Extension → List FilterChain → Result (List FilterChain)
with_socket socket [] = err (other 1)
with_socket socket (chain ∷ chains) = ok (record chain { transport_socket = some socket } ∷ chains)

-- blackHoleCluster; the timeout is in seconds.
abbrev pub black_hole_cluster : Cluster
black_hole_cluster = record {
  name = black_hole_cluster_name;
  discovery_type = static;
  v4_only = false;
  cluster_provided = false;
  load_assignment = none;
  transport_socket = none;
  connect_timeout = some 10;
}

abbrev pub unmatched : Option Matcher → Bool
unmatched none = true
unmatched (some m) = false

abbrev pub contains : List ℕ → ℕ → Bool
contains [] port = false
contains (p ∷ ports) port = p == port || contains ports port

-- A loop that stops at the first error.
unfoldable pub each : {A B : Type 0} → (A → Result B) → List A → Result (List B)
each f [] = ok []
each f (a ∷ rest) = do b ← f a; bs ← each f rest; ok (b ∷ bs)

abbrev pub admin_of : ℕ → Option SocketAddress
admin_of port =
    if port == 0 then none else some (record { address = codes "0.0.0.0"; port_value = port })

abbrev pub ingress_cluster : Cluster
ingress_cluster = record {
  name = ingress_cluster_name;
  discovery_type = original_destination;
  v4_only = true;
  cluster_provided = true;
  load_assignment = none;
  transport_socket = none;
  connect_timeout = none;
}

abbrev pub listeners_of : List (Listener × Cluster) → List Listener
listeners_of [] = []
listeners_of ((l, c) ∷ es) = l ∷ listeners_of es

abbrev pub clusters_of : List (Listener × Cluster) → List Cluster
clusters_of [] = []
clusters_of ((l, c) ∷ es) = c ∷ clusters_of es

module _ (pb : Protobuf) where
  -- anypb.New
  abbrev pub any_new : Typed → Result Typed
  any_new t = guard (pb.packs t) (other 0) >> ok t

  -- listener
  unfoldable pub listener : EgressConfigEntry → Result Listener
  listener entry = do
    proxy ← any_new (tcp_proxy entry.name entry.cluster_name)
    ok (record {
      name = entry.name;
      address = record { address = entry.listen_addr; port_value = entry.listen_port };
      filter_chains =
          record {
            name = entry.name;
            filters = record { name = codes "ingress"; typed_config = proxy } ∷ [];
            transport_socket = none;
          }
          ∷ [];
      listener_filters = [];
      transparent = false;
      filter_chain_matcher = none;
    })

  -- upstreamTLSTransportSocket and downstreamTLSTransportSocket
  abbrev pub tls_transport_socket : Typed → Result Extension
  tls_transport_socket tls = do
    packed ← any_new tls
    ok (record { name = codes "envoy.transport_sockets.tls"; typed_config = packed })

  unfoldable pub upstream_tls_transport_socket : Result Extension
  upstream_tls_transport_socket = tls_transport_socket (upstream_tls common_tls_context)

  unfoldable pub downstream_tls_transport_socket : Bool → Result Extension
  downstream_tls_transport_socket require_client_certificate =
      tls_transport_socket (downstream_tls common_tls_context require_client_certificate)

  -- cluster
  unfoldable pub cluster : EgressConfigEntry → Result Cluster
  unfolding upstream_tls_transport_socket
  cluster entry = do
    socket ← upstream_tls_transport_socket
    ok (record {
      name = entry.name;
      discovery_type = logical_dns;
      v4_only = true;
      cluster_provided = false;
      load_assignment =
          some
            (entry.name, record { address = entry.remote_domain; port_value = entry.remote_port });
      transport_socket = some socket;
      connect_timeout = none;
    })

  -- ingressListener
  unfoldable pub ingress_listener : Bytes → ℕ → Bool → Result Listener
  unfolding listener downstream_tls_transport_socket
  ingress_listener name listen_port require_client_certificate = do
    l ← listener (record {
      name = name;
      cluster_name = ingress_cluster_name;
      listen_addr = codes "0.0.0.0";
      listen_port = listen_port;
      remote_domain = [];
      remote_port = 0;
    })
    dst ← any_new original_dst
    tls_sock ← downstream_tls_transport_socket require_client_certificate
    chains ← with_socket tls_sock l.filter_chains
    ok (record l {
      filter_chains = chains;
      listener_filters = record { name = codes "tcpListener"; typed_config = dst } ∷ [];
      transparent = true;
    })

  -- blackHoleFilter
  unfoldable pub black_hole_filter : Result FilterChain
  black_hole_filter = do
    black_hole ← any_new (tcp_proxy black_hole_cluster_name black_hole_cluster_name)
    ok (record {
      name = black_hole_filter_name;
      filters = record { name = black_hole_filter_name; typed_config = black_hole } ∷ [];
      transport_socket = none;
    })

  -- filterChainMatcher
  unfoldable pub filter_chain_matcher : ℕ → Bytes → Result Matcher
  filter_chain_matcher port default_filter = do
    ingress ← any_new (string_value default_filter)
    black_hole ← any_new (string_value black_hole_filter_name)
    dest_port ← any_new destination_port_input
    ok (record {
      input = record { name = codes "port"; typed_config = dest_port };
      exact_match_map =
          (
            format_decimal port,
            record { name = codes "forwardToBlackHoleFilter"; typed_config = black_hole },
          )
          ∷ [];
      on_no_match = record { name = codes "forwardToIngress"; typed_config = ingress };
    })

  -- One turn of the loop of addBlackHoleToConfig on a listener of a port of Envoy's.
  abbrev pub black_hole_chain : Listener → List FilterChain → Result Listener
  black_hole_chain l (chain ∷ []) = do
    matcher ← filter_chain_matcher l.address.port_value chain.name
    bh ← black_hole_filter
    ok (record l { filter_chain_matcher = some matcher; filter_chains = chain ∷ bh ∷ [] })
  black_hole_chain l _ = err (other 2)

  -- One turn of the loop of addBlackHoleToConfig.
  unfoldable pub add_black_hole : List ℕ → Listener → Result Listener
  unfolding filter_chain_matcher black_hole_filter
  add_black_hole listener_ports l = do
    _ ← guard (unmatched l.filter_chain_matcher) (other 3)
    _ ← guard (not (l.address.port_value == 0)) (other 4)
    if contains listener_ports l.address.port_value
        then black_hole_chain l l.filter_chains
        else ok l

  -- addBlackHoleToConfig
  unfoldable pub add_black_hole_to_config : Bootstrap → List ℕ → Result Bootstrap
  unfolding add_black_hole each
  add_black_hole_to_config config listener_ports = do
    listeners ← each (add_black_hole listener_ports) config.listeners
    ok (record {
      admin = config.admin;
      listeners = listeners;
      clusters = config.clusters ++ black_hole_cluster ∷ [];
    })

  -- A listener and a cluster for an entry.
  abbrev pub egress_of : EgressConfigEntry → Result (Listener × Cluster)
  egress_of entry = do l ← listener entry; c ← cluster entry; ok (l, c)

  -- The configuration before it is validated, by whether the ingress is disabled.
  abbrev pub with_listeners : ℕ → List (Listener × Cluster) → Bool → Result Bootstrap
  with_listeners admin_port es true = ok (record {
    admin = admin_of admin_port;
    listeners = listeners_of es;
    clusters = clusters_of es;
  })
  with_listeners admin_port es false = do
    client_auth ← ingress_listener (codes "ingress") envoy_ingress_port true
    no_client_auth ←
        ingress_listener (codes "ingressWithoutClientAuth") envoy_ingress_port_no_client_cert false
    add_black_hole_to_config
        (record {
          admin = admin_of admin_port;
          listeners = listeners_of es ++ client_auth ∷ no_client_auth ∷ [];
          clusters = clusters_of es ++ ingress_cluster ∷ [];
        })
        (envoy_ingress_port ∷ envoy_ingress_port_no_client_cert ∷ [])

  unfoldable pub bootstrap : ProxyConfig → Result Bootstrap
  unfolding listener cluster ingress_listener add_black_hole_to_config each
  bootstrap c = do
    es ← each egress_of c.egress
    config ← with_listeners c.admin_port es c.ingress_disabled
    _ ← guard (pb.validate_all config) (other 5)
    ok config

  -- ToEnvoyConfig
  unfoldable pub to_envoy_config : ProxyConfig → Result Bytes
  unfolding bootstrap
  to_envoy_config c = bootstrap c >>= λ config. some_or (pb.marshal config)
