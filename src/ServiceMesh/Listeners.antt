-- ===== src/ServiceMesh/Listeners.antt =====
-- service-mesh/config.go: what the configuration of Envoy lets in.
use contrast.Prelude.{
  Bytes, codes, Result, ok, other, >>=-eq-ok, ok-injective, Option, none, some, Bool, true, false,
  ℕ, List, [], ◌∷◌, ◌++◌, guard, All, ◌≡◌, ◌≢◌, refl, sym, ap, ◌∙◌, append_assoc, subst, arith,
}
use contrast.Prelude.Decimals.{format_decimal}
use contrast.ServiceMesh.{
  EgressConfigEntry, ProxyConfig, envoy_ingress_port, envoy_ingress_port_no_client_cert,
}
use contrast.ServiceMesh.Messages.{
  tcp_proxy, original_dst, downstream_tls, string_value, destination_port_input, Extension,
  FilterChain, Listener, Cluster, Bootstrap,
}
use contrast.ServiceMesh.Envoy.{
  common_tls_context, Protobuf, ingress_cluster_name, black_hole_cluster_name,
  black_hole_filter_name, listener, cluster, ingress_listener, add_black_hole, each,
  add_black_hole_to_config, egress_of, listeners_of, clusters_of, with_listeners, bootstrap,
  ingress_cluster, black_hole_cluster,
}

abbrev pub forwarding : Bytes → Bytes → Bytes → Bytes → Option Extension → FilterChain
forwarding name filter stat_prefix target socket = record {
  name = name;
  filters = record { name = filter; typed_config = tcp_proxy stat_prefix target } ∷ [];
  transport_socket = socket;
}

-- A listener on all addresses which ends TLS with the mesh certificate, trusts the mesh CA only, and
-- sends a connection on to where it was going, but for one whose destination is the listener's own
-- port: that one goes to a cluster without endpoints.
abbrev pub guarded : Bytes → ℕ → Bool → Listener
guarded name port require_client_certificate = record {
  name = name;
  address = record { address = codes "0.0.0.0"; port_value = port };
  filter_chains =
      forwarding name (codes "ingress") name ingress_cluster_name (
        some (record {
          name = codes "envoy.transport_sockets.tls";
          typed_config = downstream_tls common_tls_context require_client_certificate;
        }))
      ∷ forwarding black_hole_filter_name black_hole_filter_name black_hole_cluster_name
          black_hole_cluster_name none
      ∷ [];
  listener_filters = record { name = codes "tcpListener"; typed_config = original_dst } ∷ [];
  transparent = true;
  filter_chain_matcher = some (record {
    input = record { name = codes "port"; typed_config = destination_port_input };
    exact_match_map =
        (
          format_decimal port,
          record {
            name = codes "forwardToBlackHoleFilter";
            typed_config = string_value black_hole_filter_name;
          },
        )
        ∷ [];
    on_no_match = record { name = codes "forwardToIngress"; typed_config = string_value name };
  });
}

module _ {A B : Type 0} (f : A → Result B) where
  each-append :
      (xs ys : List A) {zs : List B}
      → each f (xs ++ ys) ≡ ok zs
      → (front back : List B) × (each f xs ≡ ok front)
        × (each f ys ≡ ok back)
        × (zs ≡ front ++ back)
  unfolding each
  each-append [] ys {zs} h = ([], zs, refl, h, refl)
  each-append (x ∷ xs) ys {zs} h =
      let (b, p, h1) = >>=-eq-ok (f x) _ h in
      let (bs, q, h2) = >>=-eq-ok (each f (xs ++ ys)) _ h1 in
      let (front, back, r, t, e) = each-append xs ys q in
      (b ∷ front, back, rw (p, r), t, sym (ok-injective h2) ∙ ap (λ l. b ∷ l) e)

  each_pair :
      (x y : A) {zs : List B}
      → each f (x ∷ y ∷ []) ≡ ok zs
      → (a b : B) × (f x ≡ ok a) × (f y ≡ ok b) × (zs ≡ a ∷ b ∷ [])
  unfolding each
  each_pair x y {zs} h =
      let (a, p, h1) = >>=-eq-ok (f x) _ h in
      let (bs, q, h2) = >>=-eq-ok (each f (y ∷ [])) _ h1 in
      let (b, r, h3) = >>=-eq-ok (f y) _ q in
      (a, b, p, r, sym (ok-injective h2) ∙ ap (λ l. a ∷ l) (sym (ok-injective h3)))

-- An egress entry that is served: its port is not 0.
abbrev pub HasPort : EgressConfigEntry → Type 0
HasPort e = e.listen_port ≢ 0

-- The configuration for a service mesh whose ingress is enabled.
pub record IsGuarding (c : ProxyConfig) (b : Bootstrap) : Type 0 where
  pub egress_listeners : List Listener
  pub egress_clusters : List Cluster
  pub listeners :
      b.listeners
      ≡ egress_listeners
        ++ guarded (codes "ingress") envoy_ingress_port true
          ∷ guarded (codes "ingressWithoutClientAuth") envoy_ingress_port_no_client_cert false
          ∷ []
  pub clusters : b.clusters ≡ egress_clusters ++ ingress_cluster ∷ black_hole_cluster ∷ []
  pub ports : All HasPort c.egress

module _ (pb : Protobuf) where
  abbrev envoy_ports : List ℕ
  envoy_ports = envoy_ingress_port ∷ envoy_ingress_port_no_client_cert ∷ []

  -- The two steps that make an ingress listener and its black hole.
  client_auth_guarded :
      {l l' : Listener}
      → ingress_listener pb (codes "ingress") envoy_ingress_port true ≡ ok l
      → add_black_hole pb envoy_ports l ≡ ok l'
      → l' ≡ guarded (codes "ingress") envoy_ingress_port true
  unfolding ingress_listener add_black_hole listener
  client_auth_guarded h h' = ground arith

  no_client_auth_guarded :
      {l l' : Listener}
      → ingress_listener pb
          (codes "ingressWithoutClientAuth")
          envoy_ingress_port_no_client_cert
          false
        ≡ ok l
      → add_black_hole pb envoy_ports l ≡ ok l'
      → l' ≡ guarded (codes "ingressWithoutClientAuth") envoy_ingress_port_no_client_cert false
  unfolding ingress_listener add_black_hole listener
  no_client_auth_guarded h h' = ground arith

  egress-HasPort :
      (e : EgressConfigEntry) {l l' : Listener}
      → listener pb e ≡ ok l
      → add_black_hole pb envoy_ports l ≡ ok l'
      → HasPort e
  unfolding listener add_black_hole
  egress-HasPort e h h' = ground arith

  egress-All :
      (entries : List EgressConfigEntry) {es : List (Listener × Cluster)} {front : List Listener}
      → each (egress_of pb) entries ≡ ok es
      → each (add_black_hole pb envoy_ports) (listeners_of es) ≡ ok front
      → All HasPort entries
  unfolding each
  egress-All [] h h' = tt
  egress-All (e ∷ entries) {es} {front} h h' =
      let holed = add_black_hole pb envoy_ports in
      let (lc, p, h1) = >>=-eq-ok (egress_of pb e) _ h in
      let (rest, q, h2) = >>=-eq-ok (each (egress_of pb) entries) _ h1 in
      let (l, pl, h3) = >>=-eq-ok (listener pb e) _ p in
      let (c, pc, h4) = >>=-eq-ok (cluster pb e) _ h3 in
      let same : es ≡ (l, c) ∷ rest =
        sym (ok-injective h2) ∙ ap (λ x. x ∷ rest) (sym (ok-injective h4)) in
      let h'' = subst (λ x. each holed (listeners_of x) ≡ ok front) same h' in
      let (l', r, h5) = >>=-eq-ok (holed l) _ h'' in
      let (ls, t, h6) = >>=-eq-ok (each holed (listeners_of rest)) _ h5 in
      (egress-HasPort e pl r, egress-All entries q t)

  with_listeners-IsGuarding :
      (c : ProxyConfig) {es : List (Listener × Cluster)} {b : Bootstrap}
      → each (egress_of pb) c.egress ≡ ok es
      → with_listeners pb c.admin_port es false ≡ ok b
      → IsGuarding c b
  unfolding add_black_hole_to_config
  with_listeners-IsGuarding c {es} {b} he h =
      let (l1, p, h1) =
        >>=-eq-ok (ingress_listener pb (codes "ingress") envoy_ingress_port true) _ h in
      let (l2, q, h2) =
        >>=-eq-ok
          (ingress_listener pb (codes "ingressWithoutClientAuth") envoy_ingress_port_no_client_cert
            false)
          _ h1 in
      let holed = add_black_hole pb envoy_ports in
      let (ls, r, h3) = >>=-eq-ok (each holed (listeners_of es ++ l1 ∷ l2 ∷ [])) _ h2 in
      let (front, back, f, g, e) = each-append holed (listeners_of es) (l1 ∷ l2 ∷ []) r in
      let (k1, k2, s1, s2, t) = each_pair holed l1 l2 g in
      let e1 = client_auth_guarded p s1 in
      let e2 = no_client_auth_guarded q s2 in
      let made = ok-injective h3 in
      let first = guarded (codes "ingress") envoy_ingress_port true in
      record {
        egress_listeners = front;
        egress_clusters = clusters_of es;
        listeners =
            sym (ap (λ (b : Bootstrap). b.listeners) made)
            ∙ e
            ∙ ap (λ x. front ++ x) (t ∙ ap (λ k. k ∷ k2 ∷ []) e1 ∙ ap (λ k. first ∷ k ∷ []) e2);
        clusters =
            sym (ap (λ (b : Bootstrap). b.clusters) made)
            ∙ append_assoc (clusters_of es) (ingress_cluster ∷ []) (black_hole_cluster ∷ []);
        ports = egress-All c.egress he f;
      }

  -- Where the ingress is enabled, a configuration that ToEnvoyConfig makes ends in two listeners on
  -- all addresses, at the port that requires a client certificate and at the one that does not. Both
  -- end TLS with the mesh certificate and trust the mesh CA only, and both send what arrives for
  -- their own port to a cluster without endpoints, which is the last one, and all else to where it
  -- was going. No egress entry has the port 0.
  pub bootstrap-IsGuarding :
      (c : ProxyConfig) {b : Bootstrap}
      → c.ingress_disabled ≡ false
      → bootstrap pb c ≡ ok b
      → IsGuarding c b
  unfolding bootstrap
  bootstrap-IsGuarding c {b} enabled h =
      let (es, p, h1) = >>=-eq-ok (each (egress_of pb) c.egress) _ h in
      let (config, q, h2) = >>=-eq-ok (with_listeners pb c.admin_port es c.ingress_disabled) _ h1 in
      let (u, valid, h3) = >>=-eq-ok (guard (pb.validate_all config) (other 5)) _ h2 in
      let made = subst (λ d. with_listeners pb c.admin_port es d ≡ ok config) enabled q in
      subst (IsGuarding c) (ok-injective h3) (with_listeners-IsGuarding c p made)
