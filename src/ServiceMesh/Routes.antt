-- ===== src/ServiceMesh/Routes.antt =====
-- service-mesh/iptables.go: where the packet filter sends a packet once its rules are set up.
use contrast.Prelude.{
  ok, >>=-eq-ok, ok-injective, Option, none, some, Bool, true, false, not, ◌&&◌, ◌||◌, ℕ, List, [],
  ◌∷◌, ◌==◌, if◌then◌else◌, Bool-cases, inl, inr, ◌≡◌, refl, sym, ◌∙◌, ap, subst,
}
use native.Mathlib.Decide.{ℕ_discrete}
use contrast.ServiceMesh.{IngressConfigEntry, envoy_ingress_port, envoy_ingress_port_no_client_cert}
use contrast.ServiceMesh.IpTables.{
  Chain, prerouting, contrast_inbound, contrast_in_redirect, Target, jump, back, tproxy, Rule,
  any_tcp, IpTables, append_all, inbound_rules, entry_rules, ingress_ip_table_rules,
}

Target-discrete : Discrete Target
Target-discrete = hlevel ℕ_discrete

Rule-discrete : Discrete Rule
Rule-discrete = hlevel (ℕ_discrete, Target-discrete)

abbrev append_at : {x r : Rule} → Dec (x ≡ r) → List Rule → List Rule → List Rule
append_at {x} (yes e) xs longer = x ∷ xs
append_at {x} (no n) xs longer = x ∷ longer

-- What AppendUnique does to a chain: a rule that stands there already is not added again.
unfoldable pub appended : Rule → List Rule → List Rule
unfolding Rule-discrete Target-discrete
appended r [] = r ∷ []
appended r (x ∷ xs) = append_at (Rule-discrete x r) xs (appended r xs)

abbrev pub same_chain : Chain → Chain → Bool
same_chain prerouting prerouting = true
same_chain contrast_inbound contrast_inbound = true
same_chain contrast_in_redirect contrast_in_redirect = true
same_chain _ _ = false

-- The documented behaviour of the client, by the rules of a chain, of which one that is missing has
-- none.
pub record IpTablesLaws {T : Type 0} (iptables : IpTables T) (rules : T → Chain → List Rule)
    : Type 0 where
  pub new_chain : (c d : Chain) (t : T) → rules (iptables.new_chain c t) d ≡ rules t d
  pub append_unique :
      (c : Chain) (r : Rule) (t : T) {t' : T} (d : Chain)
      → iptables.append_unique c r t ≡ ok t'
      → rules t' d ≡ (if same_chain c d then appended r (rules t d) else rules t d)

-- A TCP packet: whether it came in over the loopback interface, whether its connection is related or
-- established, and its port.
pub record Packet : Type 0 where
  pub is_local : Bool
  pub is_established : Bool
  pub dport : ℕ

abbrev port_matches : Option ℕ → ℕ → Bool
port_matches none n = true
port_matches (some m) n = m == n

abbrev pub target_of : Packet → Rule → Option Target
target_of p r =
    if (not r.local_only || p.is_local)
      && ((not r.established_only || p.is_established) && port_matches r.dport p.dport)
    then some r.target
    else none

abbrev pub or_else : {A : Type 0} → Option A → Option A → Option A
or_else none o = o
or_else (some a) o = some a

-- The first rule of a chain that matches a packet decides.
abbrev pub first_match : Packet → List Rule → Option Target
first_match p [] = none
first_match p (r ∷ rules) = or_else (target_of p r) (first_match p rules)

-- The target for a port: the first entry for the port says which.
abbrev pub target_for : List IngressConfigEntry → ℕ → Target
target_for [] n = tproxy envoy_ingress_port
target_for (e ∷ entries) n =
    let later = target_for entries n in
    if e.listen_port == n
    then if e.disable_tls then back else tproxy envoy_ingress_port_no_client_cert
    else later

or_else_assoc : {A : Type 0} (a b c : Option A) → or_else (or_else a b) c ≡ or_else a (or_else b c)
or_else_assoc none b c = refl
or_else_assoc (some a) b c = refl

-- A rule that already stands in the chain matches nothing that the chain does not.
or_else_again : {A : Type 0} (a b : Option A) → or_else a b ≡ or_else (or_else a b) a
or_else_again none none = refl
or_else_again none (some b) = refl
or_else_again (some a) b = refl

or_else-none : {A : Type 0} (a : Option A) → or_else a none ≡ a
or_else-none none = refl
or_else-none (some a) = refl

-- The chain's decision, and that of the new rule where the chain has none.
first_match-appended :
    (p : Packet) (r : Rule) (rules : List Rule)
    → first_match p (appended r rules) ≡ or_else (first_match p rules) (target_of p r)
unfolding appended
first_match-appended p r [] = or_else-none (target_of p r)
first_match-appended p r (x ∷ xs) = at (Rule-discrete x r) (first_match-appended p r xs)
  where
    at :
        (d : Dec (x ≡ r))
        → first_match p (appended r xs) ≡ or_else (first_match p xs) (target_of p r)
        → first_match p (append_at d xs (appended r xs))
          ≡ or_else (or_else (target_of p x) (first_match p xs)) (target_of p r)
    at (yes e) ih =
        subst
          (λ r.
            or_else (target_of p x) (first_match p xs)
            ≡ or_else (or_else (target_of p x) (first_match p xs)) (target_of p r))
          e (or_else_again (target_of p x) (first_match p xs))
    at (no n) ih =
        ap (or_else (target_of p x)) ih
        ∙ sym (or_else_assoc (target_of p x) (first_match p xs) (target_of p r))

-- What rules decide that are added to a chain one after the other.
abbrev first_of : Packet → Chain → List (Chain × Rule) → Option Target
first_of p d [] = none
first_of p d ((c, r) ∷ rules) =
    or_else (if same_chain c d then target_of p r else none) (first_of p d rules)

module _ {T : Type 0} (iptables : IpTables T) (rules : T → Chain → List Rule)
    (laws : IpTablesLaws iptables rules) (p : Packet) where
  first_match-append_unique :
      (c : Chain) (r : Rule) (t : T) {t' : T} (d : Chain)
      → iptables.append_unique c r t ≡ ok t'
      → first_match p (rules t' d)
        ≡ or_else (first_match p (rules t d)) (if same_chain c d then target_of p r else none)
  first_match-append_unique c r t d h =
      ap (first_match p) (laws.append_unique c r t d h) ∙ at (same_chain c d)
    where
      at :
          (b : Bool)
          → first_match p (if b then appended r (rules t d) else rules t d)
            ≡ or_else (first_match p (rules t d)) (if b then target_of p r else none)
      at true = first_match-appended p r (rules t d)
      at false = sym (or_else-none (first_match p (rules t d)))

  first_match-append_all :
      (added : List (Chain × Rule)) (t : T) {t' : T} (d : Chain)
      → append_all iptables added t ≡ ok t'
      → first_match p (rules t' d) ≡ or_else (first_match p (rules t d)) (first_of p d added)
  unfolding append_all
  first_match-append_all [] t d h =
      ap (λ t. first_match p (rules t d)) (sym (ok-injective h))
      ∙ sym (or_else-none (first_match p (rules t d)))
  first_match-append_all ((c, r) ∷ added) t {t'} d h =
      let (t1, q, h1) = >>=-eq-ok (iptables.append_unique c r t) _ h in
      first_match-append_all added t1 d h1
      ∙ ap (λ o. or_else o (first_of p d added)) (first_match-append_unique c r t d q)
      ∙ or_else_assoc (first_match p (rules t d)) (if same_chain c d then target_of p r else none)
          (first_of p d added)

  -- All rules of a run, after those that stood there.
  first_match-ingress_ip_table_rules :
      (entries : List IngressConfigEntry) (t : T) {t' : T} (d : Chain)
      → ingress_ip_table_rules iptables entries t ≡ ok t'
      → first_match p (rules t' d)
        ≡ or_else
            (or_else
              (or_else (first_match p (rules t d)) (first_of p d (inbound_rules)))
              (first_of p d (entry_rules entries)))
            (if same_chain contrast_in_redirect d
              then target_of p (any_tcp (tproxy envoy_ingress_port))
              else none)
  unfolding ingress_ip_table_rules
  first_match-ingress_ip_table_rules entries t {t'} d h =
      let start = iptables.new_chain contrast_in_redirect (iptables.new_chain contrast_inbound t) in
      let (t1, q1, h1) = >>=-eq-ok (append_all iptables (inbound_rules) start) _ h in
      let (t2, q2, h2) = >>=-eq-ok (append_all iptables (entry_rules entries) t1) _ h1 in
      let last =
        (if same_chain contrast_in_redirect d
          then target_of p (any_tcp (tproxy envoy_ingress_port))
          else none) in
      let begun : rules start d ≡ rules t d =
        laws.new_chain contrast_in_redirect d (iptables.new_chain contrast_inbound t)
        ∙ laws.new_chain contrast_inbound d t in
      first_match-append_unique contrast_in_redirect (any_tcp (tproxy envoy_ingress_port)) t2 d h2
      ∙ ap (λ o. or_else o last)
          (first_match-append_all (entry_rules entries) t1 d q2
            ∙ ap (λ o. or_else o (first_of p d (entry_rules entries)))
                (first_match-append_all (inbound_rules) start d q1
                  ∙ ap (λ rs. or_else (first_match p rs) (first_of p d (inbound_rules))) begun))

or_else-decided :
    {A : Type 0} (o : Option A) {a : A} {q : Option A}
    → q ≡ some a
    → (b : A) × (or_else o q ≡ some b)
or_else-decided none {a} e = (a, e)
or_else-decided (some b) e = (b, refl)

or_else-left :
    {A : Type 0} (o q : Option A) → ((b : A) × (o ≡ some b)) → (b : A) × (or_else o q ≡ some b)
or_else-left o q (b, e) = (b, ap (λ o. or_else o q) e)

entry_rules-target_for :
    (p : Packet) (entries : List IngressConfigEntry)
    → or_else
        (first_of p contrast_in_redirect (entry_rules entries))
        (some (tproxy envoy_ingress_port))
      ≡ some (target_for entries p.dport)
entry_rules-target_for p [] = refl
entry_rules-target_for p (e ∷ entries) = elim (Bool-cases (e.listen_port == p.dport)) [
  | inl here ↦ rw here refl
  | inr there ↦ rw there (entry_rules-target_for p entries)
]

inbound_target : Packet → Target
inbound_target p = if p.is_local || p.is_established then back else jump contrast_in_redirect

inbound_rules-decided :
    (p : Packet) → first_of p contrast_inbound inbound_rules ≡ some (inbound_target p)
unfolding inbound_target
inbound_rules-decided p = elim (Bool-cases p.is_local) [
  | inl e ↦ rw e refl
  | inr e ↦ elim (Bool-cases p.is_established) [ inl f ↦ rw (e, f) refl | inr f ↦ rw (e, f) refl ]
]

module _ {T : Type 0} (iptables : IpTables T) (rules : T → Chain → List Rule)
    (laws : IpTablesLaws iptables rules) (p : Packet) where
  -- After a run, every chain decides on every packet.
  decided :
      (entries : List IngressConfigEntry) (t : T) {t' : T} (d : Chain)
      → ingress_ip_table_rules iptables entries t ≡ ok t'
      → (a : Target) × (first_match p (rules t' d) ≡ some a)
  decided entries t {t'} d h =
      let e = first_match-ingress_ip_table_rules iptables rules laws p entries t {t' = t'} d h in
      let (a, q) = at d in (a, e ∙ q)
    where
      at :
          (d : Chain)
          → (a : Target) × (or_else
                (or_else
                  (or_else (first_match p (rules t d)) (first_of p d inbound_rules))
                  (first_of p d (entry_rules entries)))
                (if same_chain contrast_in_redirect d
                  then target_of p (any_tcp (tproxy envoy_ingress_port))
                  else none)
              ≡ some a)
      at prerouting = or_else-left _ none (
          or_else-left _ (first_of p prerouting (entry_rules entries))
            (or_else-decided (first_match p (rules t prerouting)) refl))
      at contrast_inbound = or_else-left _ none (
          or_else-left _ (first_of p contrast_inbound (entry_rules entries))
            (or_else-decided (first_match p (rules t contrast_inbound)) (inbound_rules-decided p)))
      at contrast_in_redirect = or_else-decided _ refl

  -- Once the rules are set up in chains without rules, the first rule that matches a TCP packet sends
  -- it from PREROUTING to the inbound chain, which returns local packets and those of connections
  -- that are established, and sends all others to the redirect chain. There the first entry for the
  -- packet's port decides whether it goes to the workload directly or to Envoy without a client
  -- certificate, and a packet without an entry goes to the port of Envoy that requires one.
  pub ingress_ip_table_rules-target_for :
      (entries : List IngressConfigEntry) (t : T) {t' : T}
      → ((d : Chain) → rules t d ≡ [])
      → ingress_ip_table_rules iptables entries t ≡ ok t'
      → (first_match p (rules t' prerouting) ≡ some (jump contrast_inbound))
        × (first_match p (rules t' contrast_inbound)
            ≡ some (if p.is_local || p.is_established then back else jump contrast_in_redirect))
        × (first_match p (rules t' contrast_in_redirect) ≡ some (target_for entries p.dport))
  unfolding inbound_target
  ingress_ip_table_rules-target_for entries t {t'} empty h =
      let run = first_match-ingress_ip_table_rules iptables rules laws p entries t {t' = t'} in
      (
        run prerouting h ∙ rw (empty prerouting) refl,
        run contrast_inbound h ∙ rw (empty contrast_inbound, inbound_rules-decided p) refl,
        run contrast_in_redirect h
            ∙ rw (empty contrast_in_redirect) (entry_rules-target_for p entries),
      )

  -- The rules of a second run, of whatever entries, have no effect: every packet is sent where the
  -- first run's rules sent it. So a second run for the same entries changes nothing, and one for
  -- other entries does not bring them into force.
  pub ingress_ip_table_rules_again :
      (entries entries' : List IngressConfigEntry) (t : T) {t1 t2 : T} (d : Chain)
      → ingress_ip_table_rules iptables entries t ≡ ok t1
      → ingress_ip_table_rules iptables entries' t1 ≡ ok t2
      → first_match p (rules t2 d) ≡ first_match p (rules t1 d)
  ingress_ip_table_rules_again entries entries' t {t1} {t2} d h h' =
      let (a, e) = decided entries t d h in
      first_match-ingress_ip_table_rules iptables rules laws p entries' t1 {t' = t2} d h'
      ∙ rw e refl
