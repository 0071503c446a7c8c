-- ===== src/Guard/Provided.antt =====
-- UpdateState of coordinator/internal/stateguard/stateguard.go: the policies that came with a manifest.
use contrast.Prelude.{
  Bytes, bytes_equal, eq_of_bytes_equal, Result, ok, err, Option, none, some, Bool, true, false,
  List, [], ◌∷◌, ◌++◌, Map, lookup, insert, lookup-insert, ok-injective, ◌⊎◌, inl, inr, ◌≡◌, refl,
  sym, ◌∙◌, ap, if◌then◌else◌, ℕ, zero, suc, get_elem?, subst, take, replicate,
}
use contrast.Prelude.Execs.{bind_ok}
use contrast.Store.{Store, StoreLaws}
use contrast.History
use contrast.History.{History}
use contrast.History.Content.{set_contentaddressed_lem}
use contrast.History.Encoding.{digest}
use contrast.Manifest.{PolicyEntry}
use contrast.Manifest.Hex.{hex_decode}
use contrast.Guard.{Env, copy_hash, found, check_ref, and_then, check_policies, set_policies}

and_then_ok : (a b : Result (Unit {0})) → and_then a b ≡ ok tt → (a ≡ ok tt) × (b ≡ ok tt)
and_then_ok (ok _) b e = (refl, e)
and_then_ok (err x) b e = cc

some-injective : {A : Type 0} {a b : A} → some a ≡ some b → a ≡ b
some-injective e = cc

module _ {S : Type 0} (store : Store S) (env : Env) where
  -- One of the policies, with its digest.
  pub record IsGiven (ps : List Bytes) (hash b : Bytes) : Type 0 where
    pub index : ℕ
    pub listed : get_elem? ps index ≡ some b
    pub digested : env.crypto.sum256 b ≡ hash

  later-IsGiven :
      (p : Bytes) (ps : List Bytes) (k b : Bytes) → IsGiven ps k b → IsGiven (p ∷ ps) k b
  later-IsGiven p ps k b g = record {
    index = suc g.index;
    listed = g.listed;
    digested = g.digested;
  }

  set_policies-IsGiven :
      StoreLaws store
      → (ps : List Bytes) (provided : Map Bytes) (h : History S) {m : Map Bytes}
      → (set_policies store env ps provided h).0 ≡ ok m
      → (k b : Bytes) → lookup k m ≡ some b
      → (lookup k provided ≡ some b) ⊎ IsGiven ps k b
  unfolding set_policies digest
  set_policies-IsGiven laws [] provided h e k b found = inl (ap (lookup k) (ok-injective e) ∙ found)
  set_policies-IsGiven laws (p ∷ ps) provided h {m} e k b found =
      let (hash, e1, q1) =
        bind_ok (History.set_policy store env.crypto p)
          (λ hash. set_policies store env ps (insert hash p provided)) h e in
      let (same, _, _) = set_contentaddressed_lem store env.crypto laws History.policies p h e1 in
      let h1 = (History.set_policy store env.crypto p h).1 in
      by hash (sym same) (bytes_equal hash k) refl (
        set_policies-IsGiven laws ps (insert hash p provided) h1 (ap (λ r. r.0) (sym q1) ∙ e) k b
          found)
    where
      here :
          (hash : Bytes) (equal : Bool)
          → env.crypto.sum256 p ≡ hash
          → bytes_equal hash k ≡ equal
          → (if equal then some p else lookup k provided) ≡ some b
          → (lookup k provided ≡ some b) ⊎ IsGiven (p ∷ ps) k b
      here hash true same q e = inr (record {
        index = 0;
        listed = e;
        digested =
            ap env.crypto.sum256 (some-injective (sym e)) ∙ (same ∙ eq_of_bytes_equal hash k q);
      })
      here hash false same q e = inl e

      by :
          (hash : Bytes)
          → env.crypto.sum256 p ≡ hash
          → (equal : Bool) → bytes_equal hash k ≡ equal
          → (lookup k (insert hash p provided) ≡ some b) ⊎ IsGiven ps k b
          → (lookup k provided ≡ some b) ⊎ IsGiven (p ∷ ps) k b
      by hash same equal q (inl x) =
          here hash (bytes_equal hash k) same refl (sym (lookup-insert hash k p provided) ∙ x)
      by hash same equal q (inr g) = inr (later-IsGiven p ps k b g)

  -- The policies that a request gives, by their hashes.
  pub set_policies-IsGiven_empty :
      StoreLaws store
      → (ps : List Bytes) (h : History S) {m : Map Bytes}
      → (set_policies store env ps [] h).0 ≡ ok m
      → (k b : Bytes) → lookup k m ≡ some b
      → IsGiven ps k b
  unfolding lookup
  set_policies-IsGiven_empty laws ps h e k b found =
      by (set_policies-IsGiven laws ps [] h e k b found)
    where
      by : (none ≡ some b) ⊎ IsGiven ps k b → IsGiven ps k b
      by (inl x) = cc
      by (inr g) = g

  -- A policy of a manifest that is among those given: its hash, cut or filled up to 32 bytes, is the
  -- digest of one of them.
  pub record IsProvided (ps : List Bytes) (hex : Bytes) : Type 0 where
    pub hash : Bytes
    pub decoded : hex_decode hex ≡ some hash
    pub policy : Bytes
    pub given : IsGiven ps (take 32 (hash ++ replicate 32 0)) policy

  abbrev Found : Map Bytes → Bytes → Type 0
  Found m hex =
      (hash : Bytes) × (b : Bytes) × (hex_decode hex ≡ some hash)
      × (lookup (copy_hash hash) m ≡ some b)

  found_inv :
      (hex hash : Bytes) (m : Map Bytes) (o : Option Bytes)
      → hex_decode hex ≡ some hash
      → lookup (copy_hash hash) m ≡ o
      → found hex o ≡ ok tt
      → Found m hex
  found_inv hex hash m none q x c = cc
  found_inv hex hash m (some b) q x c = (hash, b, q, x)

  check_ref_inv :
      (hex : Bytes) (o : Option Bytes) (m : Map Bytes)
      → hex_decode hex ≡ o
      → check_ref hex o m ≡ ok tt
      → Found m hex
  check_ref_inv hex none m q c = cc
  check_ref_inv hex (some hash) m q c = found_inv hex hash m (lookup (copy_hash hash) m) q refl c

  check_policies_inv :
      (l : Map PolicyEntry) (m : Map Bytes)
      → check_policies l m ≡ ok tt
      → (i : ℕ) (hex : Bytes) (entry : PolicyEntry) → get_elem? l i ≡ some (hex, entry)
      → Found m hex
  unfolding check_policies
  check_policies_inv [] m e i hex entry at = cc
  check_policies_inv ((hex', entry') ∷ l) m e zero hex entry at =
      subst (Found m) (ap (λ (p : Bytes × PolicyEntry). p.0) (some-injective at))
        (check_ref_inv hex' (hex_decode hex') m refl (and_then_ok _ _ e).0)
  check_policies_inv ((hex', entry') ∷ l) m e (suc i) hex entry at =
      check_policies_inv l m (and_then_ok _ _ e).1 i hex entry at

  -- Policies that have passed the check are among those given.
  pub check_policies-IsProvided :
      (ps : List Bytes) (l : Map PolicyEntry) (m : Map Bytes)
      → ((k b : Bytes) → lookup k m ≡ some b → IsGiven ps k b)
      → check_policies l m ≡ ok tt
      → (i : ℕ) (hex : Bytes) (entry : PolicyEntry) → get_elem? l i ≡ some (hex, entry)
      → IsProvided ps hex
  check_policies-IsProvided ps l m given e i hex entry at =
      let (hash, b, decoded, found) = check_policies_inv l m e i hex entry at in
      record { hash = hash; decoded = decoded; policy = b; given = given (copy_hash hash) b found }
