-- ===== src/UserApi/Security.antt =====
-- checkManifestSecurity of coordinator/internal/userapi/userapi.go.
use contrast.Prelude.{
  Bytes, Result, ok, err, Bool, true, false, not, ◌&&◌, ◌||◌, List, [], ◌∷◌, ◌++◌, map, any, ◌≡◌,
  ◌↔◌, refl, ap, ◌∙◌, arith,
}
use contrast.Platforms.{Platform, from_string}
use contrast.Platforms.Names.{is_insecure_name, is_insecure_result, from_string-is_insecure}
use contrast.Manifest.{
  Manifest, insecure_pred, secure_pred, any_reference_value, has_insecure_platforms,
  has_secure_platforms,
}
use contrast.Manifest.Values.{SnpReferenceValues, TdxReferenceValues}
use contrast.UserApi.{check_manifest_security}

-- The platforms that the reference values name.
abbrev pub platform_names : Manifest → List Bytes
platform_names m =
    map (λ (v : SnpReferenceValues). v.platform) m.reference_values.snp
    ++ map (λ (v : TdxReferenceValues). v.platform) m.reference_values.tdx

any-map :
    {A : Type 0} (p q : Bytes → Bool) (f : A → Bytes) (l : List A)
    → ((b : Bytes) → p b ≡ q b)
    → any (λ x. p (f x)) l ≡ any q (map f l)
any-map p q f [] same = refl
any-map p q f (x ∷ l) same = rw (same (f x), any-map p q f l same) refl

any-append : (p : Bytes → Bool) (l k : List Bytes) → any p (l ++ k) ≡ (any p l || any p k)
any-append p [] k = refl
any-append p (x ∷ l) k = ground (arith, any-append p l k)

insecure_name : (b : Bytes) → insecure_pred (from_string b) ≡ is_insecure_name b
insecure_name b = by (from_string b) ∙ from_string-is_insecure b
  where
    by : (r : Result Platform) → insecure_pred r ≡ is_insecure_result r
    by (ok p) = refl
    by (err e) = refl

secure_name : (b : Bytes) → secure_pred (from_string b) ≡ not (is_insecure_name b)
secure_name b = by (from_string b) ∙ ap not (from_string-is_insecure b)
  where
    by : (r : Result Platform) → secure_pred r ≡ not (is_insecure_result r)
    by (ok p) = refl
    by (err e) = refl

names_lem :
    (pred : Result Platform → Bool) (q : Bytes → Bool) (m : Manifest)
    → ((b : Bytes) → pred (from_string b) ≡ q b)
    → any_reference_value pred m ≡ any q (platform_names m)
unfolding any_reference_value
names_lem pred q m same =
    let snp = map (λ (v : SnpReferenceValues). v.platform) m.reference_values.snp in
    let tdx = map (λ (v : TdxReferenceValues). v.platform) m.reference_values.tdx in
    rw
      (
        any-map (λ b. pred (from_string b)) q (λ (v : SnpReferenceValues). v.platform)
            m.reference_values.snp same,
        any-map (λ b. pred (from_string b)) q (λ (v : TdxReferenceValues). v.platform)
            m.reference_values.tdx same,
        any-append q snp tdx,
      )
      refl

abbrev pub is_nil : List Bytes → Bool
is_nil [] = true
is_nil (x ∷ l) = false

-- Where insecure platforms are allowed: at least one platform, and only insecure ones. Elsewhere: no
-- insecure one. A name that is not one of an insecure platform counts as secure.
abbrev pub is_acceptable : Bool → List Bytes → Bool
is_acceptable true names = not (is_nil names) && not (any (λ n. not (is_insecure_name n)) names)
is_acceptable false names = not (any is_insecure_name names)

split_names :
    (l : List Bytes)
    → any (λ n. not (is_insecure_name n)) l ≡ false
    → any is_insecure_name l ≡ not (is_nil l)
split_names [] h = refl
split_names (n ∷ l) h = ground arith

some_names : (l : List Bytes) → any is_insecure_name l ≡ true → is_nil l ≡ false
some_names [] h = cc
some_names (n ∷ l) h = refl

has_insecure_platforms-names :
    (m : Manifest) → has_insecure_platforms m ≡ any is_insecure_name (platform_names m)
unfolding has_insecure_platforms
has_insecure_platforms-names m = names_lem insecure_pred is_insecure_name m insecure_name

has_secure_platforms-names :
    (m : Manifest) → has_secure_platforms m ≡ any (λ n. not (is_insecure_name n)) (platform_names m)
unfolding has_secure_platforms
has_secure_platforms-names m = names_lem secure_pred (λ n. not (is_insecure_name n)) m secure_name

-- checkManifestSecurity accepts a manifest exactly if, where insecure platforms are allowed, there are
-- reference values and each names an insecure platform, and, where they are not, none names one.
pub check_manifest_security_iff :
    (allow : Bool) (m : Manifest)
    → (check_manifest_security allow m ≡ ok tt) ↔ (is_acceptable allow (platform_names m) ≡ true)
unfolding check_manifest_security
check_manifest_security_iff true m =
    let l = platform_names m in
    rw (has_insecure_platforms-names m, has_secure_platforms-names m)
      (ground (arith, split_names l, some_names l))
check_manifest_security_iff false m =
    rw (has_insecure_platforms-names m, has_secure_platforms-names m) (ground arith)
