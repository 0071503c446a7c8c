-- ===== src/ServiceMesh/Ports.antt =====
-- service-mesh/config.go: what holds of a configuration that ParseProxyConfig accepts.
use contrast.Prelude.{
  is_empty, some_or, some_or-eq-ok, guard-eq-ok, Bytes, codes, bytes_equal, Result, ok, >>=-eq-ok,
  ok-injective, some, Bool, true, false, inl, inr, ◌⊎◌, ◌&&◌, ℕ, suc, ◌<◌, List, [], ◌∷◌, guard,
  All, if◌then◌else◌, ◌≡◌, refl, subst, arith,
}
use contrast.ServiceMesh.{EgressConfigEntry, IngressConfigEntry, ProxyConfig}
use contrast.ServiceMesh.Config.{
  Net, ℤ, pos, negsuc, to_unsigned, parts_of, split, atoi, parse_bool, parse_egress_entry,
  parse_ingress_entry, parse_entries, parse_admin_port, entry_then, with_ingress, parse_given,
  parse_proxy_config, no_config,
}

-- netip's ports have 16 bits.
abbrev pub NetLaws : Net → Type 0
NetLaws net = (s addr : Bytes) (port : ℕ) → net.parse_addr_port s ≡ some (addr, port) → port < 65536

abbrev pub IsEgress : Net → EgressConfigEntry → Type 0
IsEgress net e =
    (net.loopback_contains e.listen_addr ≡ true)
    × (e.listen_port < 65536)
    × (e.remote_port < 65536)
    × (e.cluster_name ≡ e.name)

abbrev pub IsIngress : IngressConfigEntry → Type 0
IsIngress e = e.listen_port < 65536

pub record IsConfig (net : Net) (cfg : ProxyConfig) : Type 0 where
  pub egress : All (IsEgress net) cfg.egress
  pub ingress : All IsIngress cfg.ingress
  pub admin_port : cfg.admin_port < 4_294_967_296
  pub disabled : (cfg.ingress_disabled ≡ false) ⊎ (cfg.ingress ≡ [])

to_unsigned-lt : (m : ℕ) (i : ℤ) → to_unsigned (suc m) i < suc m
to_unsigned-lt m (pos n) = omega arith
to_unsigned-lt m (negsuc n) = omega arith

module _ (net : Net) (laws : NetLaws net) where
  parse_egress_entry-IsEgress :
      (entry : Bytes) {e : EgressConfigEntry} → parse_egress_entry net entry ≡ ok e → IsEgress net e
  unfolding parse_egress_entry
  parse_egress_entry-IsEgress entry {e} h =
      let (parts, split_ok, h1) = >>=-eq-ok (parts_of (split (codes "#") entry)) _ h in
      let (addr_port, a, h2) = >>=-eq-ok (some_or (net.parse_addr_port parts.1)) _ h1 in
      let (u, inside, h3) = >>=-eq-ok (guard (net.loopback_contains addr_port.0) _) _ h2 in
      let (host_port, b, h4) = >>=-eq-ok (some_or (net.split_host_port parts.2)) _ h3 in
      let (port, p, h5) = >>=-eq-ok (atoi host_port.1) _ h4 in
      subst (IsEgress net) (ok-injective h5) (
        guard-eq-ok (net.loopback_contains addr_port.0) _ inside,
        laws parts.1 addr_port.0 addr_port.1 (some_or-eq-ok (net.parse_addr_port parts.1) a),
        to_unsigned-lt 65535 port,
        refl,
      )

  parse_ingress_entry-IsIngress :
      (entry : Bytes) {e : IngressConfigEntry} → parse_ingress_entry net entry ≡ ok e → IsIngress e
  unfolding parse_ingress_entry
  parse_ingress_entry-IsIngress entry {e} h =
      let (parts, split_ok, h1) = >>=-eq-ok (parts_of (split (codes "#") entry)) _ h in
      let (port, p, h2) = >>=-eq-ok (atoi parts.1) _ h1 in
      let (disable, d, h3) = >>=-eq-ok (parse_bool parts.2) _ h2 in
      subst IsIngress (ok-injective h3) (to_unsigned-lt 65535 port)

parse_entries-All :
    {E : Type 0} (P : E → Type 0) (parse : Bytes → Result E)
    → ((entry : Bytes) (e : E) → parse entry ≡ ok e → P e)
    → (entries : List Bytes) {es : List E} → parse_entries parse entries ≡ ok es
    → All P es
unfolding parse_entries
parse_entries-All P parse sound [] h = subst (All P) (ok-injective h) tt
parse_entries-All {E} P parse sound (entry ∷ entries) h =
    turn (λ es q. parse_entries-All P parse sound entries q) (is_empty entry) h
  where
    turn :
        ((es : List E) → parse_entries parse entries ≡ ok es → All P es)
        → (b : Bool) {es : List E}
        → entry_then b (parse entry) (parse_entries parse entries) ≡ ok es
        → All P es
    turn ih true h = ih _ h
    turn ih false h =
        let (x, p, h1) = >>=-eq-ok (parse entry) _ h in
        let (xs, q, h2) = >>=-eq-ok (parse_entries parse entries) _ h1 in
        subst (All P) (ok-injective h2) (sound entry x p, ih xs q)

parse_admin_port-lt : (s : Bytes) {n : ℕ} → parse_admin_port s ≡ ok n → n < 4_294_967_296
unfolding parse_admin_port
parse_admin_port-lt [] h = ground arith
parse_admin_port-lt (c ∷ s) h =
    let (port, p, h1) = >>=-eq-ok (atoi (c ∷ s)) _ h in
    subst (λ n. n < 4_294_967_296) (ok-injective h1) (to_unsigned-lt 4_294_967_295 port)

module _ (net : Net) (laws : NetLaws net) where
  with_ingress-IsConfig :
      (egress : List EgressConfigEntry) (admin : ℕ) (ingress_config : Bytes)
      → All (IsEgress net) egress
      → admin < 4_294_967_296
      → (b : Bool) {cfg : ProxyConfig} → with_ingress net egress admin ingress_config b ≡ ok cfg
      → IsConfig net cfg
  with_ingress-IsConfig egress admin ingress_config es lt true h =
      subst (IsConfig net) (ok-injective h)
        (record { egress = es; ingress = tt; admin_port = lt; disabled = inr refl })
  with_ingress-IsConfig egress admin ingress_config es lt false h =
      let entries = split (codes "##") ingress_config in
      let (is, ingress, h1) = >>=-eq-ok (parse_entries (parse_ingress_entry net) entries) _ h in
      let each =
        parse_entries-All IsIngress (parse_ingress_entry net)
          (λ t e q. parse_ingress_entry-IsIngress net laws t q) entries ingress in
      subst (IsConfig net) (ok-injective h1)
        (record { egress = es; ingress = each; admin_port = lt; disabled = inl refl })

  -- A configuration that ParseProxyConfig accepts has, whatever numbers stand in the texts, ports of
  -- 16 bits and an administration port of 32 bits. Each egress entry listens on a loopback address,
  -- and its cluster has its name. If the ingress is disabled, there are no ingress entries. The
  -- network library's ports have 16 bits.
  pub parse_proxy_config-IsConfig :
      (ingress_config egress_config admin_port : Bytes) {cfg : ProxyConfig}
      → parse_proxy_config net ingress_config egress_config admin_port ≡ ok cfg
      → IsConfig net cfg
  unfolding parse_proxy_config
  parse_proxy_config-IsConfig ingress_config egress_config admin_port {cfg} h =
      given (is_empty ingress_config && is_empty egress_config && is_empty admin_port) h
    where
      given :
          (b : Bool)
          → (if b then ok no_config else parse_given net ingress_config egress_config admin_port)
            ≡ ok cfg
          → IsConfig net cfg
      given true h =
          subst (IsConfig net) (ok-injective h)
            (record { egress = tt; ingress = tt; admin_port = omega arith; disabled = inr refl })
      given false h =
          let entries = split (codes "##") egress_config in
          let (es, egress, h1) = >>=-eq-ok (parse_entries (parse_egress_entry net) entries) _ h in
          let (admin, a, h2) = >>=-eq-ok (parse_admin_port admin_port) _ h1 in
          with_ingress-IsConfig es admin ingress_config
            (parse_entries-All (IsEgress net) (parse_egress_entry net)
              (λ t e q. parse_egress_entry-IsEgress net laws t q) entries egress)
            (parse_admin_port-lt admin_port a) (bytes_equal ingress_config (codes "DISABLED")) h2
