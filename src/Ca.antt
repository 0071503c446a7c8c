-- ===== src/Ca.antt =====
-- internal/ca/ca.go: the certificate authority of the Coordinator.
use contrast.Prelude.{
  Bytes, codes, Result, ok, err, bad_ca, index_out_of_range, ◌>>=◌, if◌then◌else◌, Option, none,
  some, Bool, true, false, not, ◌&&◌, List, [], ◌∷◌, ◌≡◌, ◌≢◌, ◌↔◌, refl, arith, ℕ, any, Bool-cases,
  inl, inr,
}
use contrast.Crypto.{Crypto}

-- What the code fills in of x509.Certificate; validity times and key usages are constants.
pub record Template : Type 0 where
  pub common_name : Bytes
  pub is_ca : Bool
  pub dns_names : List Bytes
  pub ip_addresses : List Bytes
  pub uris : List Bytes
  pub extra_extensions : List Bytes

-- crypto/x509, net and net/url.
pub record X509 : Type 0 where
  -- CreateCertificate(rand.Reader, template, parent, pub, priv), PEM-encoded
  pub create_certificate : ℕ → Template → Template → Bytes → Bytes → Option Bytes
  -- net.ParseIP(name) != nil
  pub is_ip : Bytes → Bool
  -- url.Parse(name) succeeds with a scheme
  pub is_uri : Bytes → Bool

pub record Ca : Type 0 where
  pub root_ca_priv_key : Bytes
  pub root_ca_pem : Bytes
  pub interm_priv_key : Bytes
  pub interm_ca_pem : Bytes
  pub mesh_ca_cert : Template
  pub mesh_ca_pem : Bytes

abbrev ca_template : Bytes → Template
ca_template name = record {
  common_name = name;
  is_ca = true;
  dns_names = [];
  ip_addresses = [];
  uris = [];
  extra_extensions = [];
}

abbrev pub root_template : Template
root_template = ca_template (codes "system:coordinator:root")

-- The intermediate and the mesh certificate have the same subject and key.
abbrev pub interm_template : Template
interm_template = ca_template (codes "system:coordinator:intermediate")

pub record Names : Type 0 where
  pub dns : List Bytes
  pub ips : List Bytes
  pub uris : List Bytes

module _ (x509 : X509) (crypto : Crypto) where
  abbrev cert_of : Option Bytes → Result Bytes
  cert_of none = err bad_ca
  cert_of (some pem) = ok pem

  unfoldable pub create_cert : ℕ → Template → Template → Bytes → Bytes → Result Bytes
  create_cert rand template parent pub_key priv_key =
      cert_of (x509.create_certificate rand template parent pub_key priv_key)

  -- New
  unfoldable pub new : ℕ → Bytes → Bytes → Result Ca
  unfolding create_cert
  new rand root_key interm_key = do
    root ← create_cert rand root_template root_template (crypto.public_key root_key) root_key
    interm ← create_cert rand interm_template root_template (crypto.public_key interm_key) root_key
    mesh ←
        create_cert rand interm_template interm_template (crypto.public_key interm_key) interm_key
    ok (record {
      root_ca_priv_key = root_key;
      root_ca_pem = root;
      interm_priv_key = interm_key;
      interm_ca_pem = interm;
      mesh_ca_cert = interm_template;
      mesh_ca_pem = mesh;
    })

  -- The loop of NewAttestedMeshCert over the names.
  unfoldable pub split_names : List Bytes → Names
  split_names [] = record { dns = []; ips = []; uris = [] }
  split_names (n ∷ ns) =
      let rest = split_names ns in
      if x509.is_ip n
      then record rest { ips = n ∷ rest.ips }
      else if x509.is_uri n
      then record rest { uris = n ∷ rest.uris }
      else record rest { dns = n ∷ rest.dns }

  -- The first DNS name is the common name; without one the index is out of range.
  unfoldable pub issue : ℕ → Ca → Names → List Bytes → List Bytes → Bytes → Result Bytes
  unfolding create_cert
  issue rand ca names [] extensions key = err index_out_of_range
  issue rand ca names (first ∷ rest) extensions key =
      create_cert rand
        (record {
          common_name = first;
          is_ca = false;
          dns_names = names.dns;
          ip_addresses = names.ips;
          uris = names.uris;
          extra_extensions = extensions;
        })
        ca.mesh_ca_cert key ca.interm_priv_key

  unfoldable pub new_attested_mesh_cert : ℕ → Ca → List Bytes → List Bytes → Bytes → Result Bytes
  unfolding issue
  new_attested_mesh_cert rand ca names extensions key =
      let split = split_names names in issue rand ca split split.dns extensions key

  abbrev pub is_dns : Bytes → Bool
  is_dns n = not (x509.is_ip n) && not (x509.is_uri n)

  split_names_none : (names : List Bytes) → any is_dns names ≡ false → (split_names names).dns ≡ []
  unfolding split_names
  split_names_none [] h = refl
  split_names_none (n ∷ ns) h = ground (arith, split_names_none ns)

  split_names_some :
      (names : List Bytes)
      → any is_dns names ≡ true
      → (first : Bytes) × (rest : List Bytes) × ((split_names names).dns ≡ first ∷ rest)
  unfolding split_names
  split_names_some [] h = cc
  split_names_some (n ∷ ns) h = elim (Bool-cases (x509.is_ip n)) [
    | inl ip ↦ let (first, rest, e) = split_names_some ns (ground arith) in (first, rest, rw ip e)
    | inr no_ip ↦ elim (Bool-cases (x509.is_uri n)) [
      | inl uri ↦
          let (first, rest, e) = split_names_some ns (ground arith) in
          (first, rest, rw (no_ip, uri) e)
      | inr no_uri ↦ (n, (split_names ns).dns, rw (no_ip, no_uri))
    ]
  ]

  cert_of_ne : (o : Option Bytes) → cert_of o ≢ err index_out_of_range
  cert_of_ne none e = cc
  cert_of_ne (some pem) e = cc

  -- Issuing a mesh certificate fails by an index out of range, which is a panic, exactly when none of
  -- the names is a DNS name, that is, neither an IP address nor a URI.
  pub new_attested_mesh_cert_panics_iff :
      (rand : ℕ) (ca : Ca) (names extensions : List Bytes) (key : Bytes)
      → (new_attested_mesh_cert rand ca names extensions key ≡ err index_out_of_range)
        ↔ (any is_dns names ≡ false)
  unfolding new_attested_mesh_cert
  new_attested_mesh_cert_panics_iff rand ca names extensions key = (
    λ e. elim (Bool-cases (any is_dns names)) [
      | inl dns ↦
          let (first, rest, split) = split_names_some names dns in
          absurd (cert_of_ne _ (rw split at e))
      | inr none_dns ↦ none_dns
    ],
    λ h. rw (split_names_none names h),
  )
