-- ===== src/ServiceMesh/Config.antt =====
-- service-mesh/config.go: ParseProxyConfig.
use contrast.Prelude.{
  has_prefix, is_empty, some_or, Bytes, codes, bytes_equal, Result, ok, err, other, ◌>>=◌, Option,
  none, some, Bool, true, false, ◌&&◌, ◌||◌, ℕ, zero, suc, ◌-◌, ◌%◌, List, [], ◌∷◌, length, ltb,
  ◌==◌, if◌then◌else◌, guard,
}
use contrast.Prelude.Decimals.{parse_decimal}
use contrast.ServiceMesh.{EgressConfigEntry, IngressConfigEntry, ProxyConfig}

-- net/netip and net: an address is its text.
pub record Net : Type 0 where
  -- netip.ParseAddrPort
  pub parse_addr_port : Bytes → Option (Bytes × ℕ)
  -- netip.MustParsePrefix("127.0.0.1/8").Contains
  pub loopback_contains : Bytes → Bool
  -- net.SplitHostPort
  pub split_host_port : Bytes → Option (Bytes × Bytes)

-- strings.Split for a separator that is not empty: the piece that has begun and those after it,
-- where so many characters belong to a separator that was found.
pub split_from : Bytes → ℕ → Bytes → Bytes × List Bytes
split_from sep skip [] = ([], [])
split_from sep (suc skip) (c ∷ s) = split_from sep skip s
split_from sep zero (c ∷ s) =
    let cut = split_from sep (length sep - 1) s in
    let whole = split_from sep 0 s in
    if has_prefix sep (c ∷ s) then ([], cut.0 ∷ cut.1) else (c ∷ whole.0, whole.1)

unfoldable pub split : Bytes → Bytes → List Bytes
unfolding split_from
split sep s = let (piece, pieces) = split_from sep 0 s in piece ∷ pieces

-- The integers: a Go int is one from -2^63 on and below 2^63.
pub data ℤ : Type 0 where
  pos negsuc : ℕ → ℤ

abbrev pub negative : ℕ → ℤ
negative zero = pos 0
negative (suc n) = negsuc n

abbrev pub signed : (ℕ → ℤ) → ℕ → Option ℕ → Result ℤ
signed sign limit none = err (other 0)
signed sign limit (some n) = if ltb n limit then ok (sign n) else err (other 1)

-- strconv.Atoi
unfoldable pub atoi : Bytes → Result ℤ
atoi [] = err (other 0)
atoi (c ∷ s) =
    if c == b'-'
    then signed negative 9_223_372_036_854_775_809 (parse_decimal s)
    else if c == b'+'
    then signed pos 9_223_372_036_854_775_808 (parse_decimal s)
    else signed pos 9_223_372_036_854_775_808 (parse_decimal (c ∷ s))

-- The conversions uint16(i) and uint32(i), of a modulus: two's complement is cut off.
abbrev pub to_unsigned : ℕ → ℤ → ℕ
to_unsigned modulus (pos n) = n % modulus
to_unsigned modulus (negsuc n) = modulus - 1 - n % modulus

-- strconv.ParseBool
unfoldable pub parse_bool : Bytes → Result Bool
parse_bool s =
    let is = λ (t : Bytes). bytes_equal s t in
    if is (codes "1")
      || is (codes "t")
      || is (codes "T")
      || is (codes "TRUE")
      || is (codes "true")
      || is (codes "True")
    then ok true
    else if is (codes "0")
        || is (codes "f")
        || is (codes "F")
        || is (codes "FALSE")
        || is (codes "false")
        || is (codes "False")
    then ok false
    else err (other 2)

abbrev pub parts_of : List Bytes → Result (Bytes × Bytes × Bytes)
parts_of (a ∷ b ∷ c ∷ []) = ok (a, b, c)
parts_of _ = err (other 3)

module _ (net : Net) where
  -- An entry of the egress configuration that is not empty.
  unfoldable pub parse_egress_entry : Bytes → Result EgressConfigEntry
  unfolding atoi split
  parse_egress_entry entry = do
    parts ← parts_of (split (codes "#") entry)
    addr_port ← some_or (net.parse_addr_port parts.1)
    _ ← guard (net.loopback_contains addr_port.0) (other 4)
    host_port ← some_or (net.split_host_port parts.2)
    port ← atoi host_port.1
    ok (record {
      name = parts.0;
      cluster_name = parts.0;
      listen_addr = addr_port.0;
      listen_port = addr_port.1;
      remote_domain = host_port.0;
      remote_port = to_unsigned 65536 port;
    })

  -- An entry of the ingress configuration that is not empty.
  unfoldable pub parse_ingress_entry : Bytes → Result IngressConfigEntry
  unfolding atoi split parse_bool
  parse_ingress_entry entry = do
    parts ← parts_of (split (codes "#") entry)
    port ← atoi parts.1
    disable ← parse_bool parts.2
    ok (record { name = parts.0; listen_port = to_unsigned 65536 port; disable_tls = disable })

-- One turn of the loop over the entries, by whether the entry is empty.
abbrev pub entry_then : {E : Type 0} → Bool → Result E → Result (List E) → Result (List E)
entry_then true e es = es
entry_then false e es = e >>= λ e. es >>= λ es. ok (e ∷ es)

-- The loops over the entries: empty ones are passed over, and the first error ends the loop.
unfoldable pub parse_entries : {E : Type 0} → (Bytes → Result E) → List Bytes → Result (List E)
parse_entries parse [] = ok []
parse_entries parse (entry ∷ entries) =
    entry_then (is_empty entry) (parse entry) (parse_entries parse entries)

unfoldable pub parse_admin_port : Bytes → Result ℕ
unfolding atoi
parse_admin_port [] = ok 0
parse_admin_port (c ∷ s) = do port ← atoi (c ∷ s); ok (to_unsigned 4_294_967_296 port)

abbrev pub no_config : ProxyConfig
no_config = record { egress = []; ingress = []; admin_port = 0; ingress_disabled = false }

module _ (net : Net) where
  -- The last part, by whether the ingress is disabled.
  abbrev pub with_ingress : List EgressConfigEntry → ℕ → Bytes → Bool → Result ProxyConfig
  with_ingress egress admin ingress_config true =
      ok (record { egress = egress; ingress = []; admin_port = admin; ingress_disabled = true })
  with_ingress egress admin ingress_config false = do
    ingress ← parse_entries (parse_ingress_entry net) (split (codes "##") ingress_config)
    ok (record { egress = egress; ingress = ingress; admin_port = admin; ingress_disabled = false })

  -- Past the test for three empty texts.
  abbrev pub parse_given : Bytes → Bytes → Bytes → Result ProxyConfig
  parse_given ingress_config egress_config admin_port = do
    egress ← parse_entries (parse_egress_entry net) (split (codes "##") egress_config)
    admin ← parse_admin_port admin_port
    with_ingress egress admin ingress_config (bytes_equal ingress_config (codes "DISABLED"))

  -- ParseProxyConfig
  unfoldable pub parse_proxy_config : Bytes → Bytes → Bytes → Result ProxyConfig
  unfolding parse_entries split parse_admin_port
  parse_proxy_config ingress_config egress_config admin_port =
      if is_empty ingress_config && is_empty egress_config && is_empty admin_port
      then ok no_config
      else parse_given ingress_config egress_config admin_port
