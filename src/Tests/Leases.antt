-- ===== src/Tests/Leases.antt =====
-- The queue and its leases, at concrete inputs, over a small API server.
use contrast.Prelude.{
  Bytes, codes, Map, lookup, insert, lookup-insert_self, Result, ok, err, not_exist, already_exists,
  conflict, ok-injective, Option, none, some, Bool, true, false, ℕ, suc, ◌+◌, ◌*◌, ◌≤◌, List, [],
  ◌∷◌, ◌==◌, ◌≡◌, refl, sym, ◌∙◌, ap, arith,
}
use contrast.Lease
use contrast.Lease.{Lease, Contender, Api, claim, position, claim_lease, release, second, holder_of}
use contrast.Lease.Queue.{IsIn, IsLive, IsFirst, position-IsFirst}
use contrast.Lease.Claims.{
  ApiLaws, Versioned, IsClaimed, claim_lease-IsClaimed, claim_lease_exclusive,
}

-- A lease that was deleted leaves its name.
abbrev Server : Type 0
Server = Map (Option Lease)

abbrev flat : Option (Option Lease) → Option Lease
flat none = none
flat (some o) = o

abbrev found : Bytes → Option Lease → Result Lease
found n none = err not_exist
found n (some l) = ok (record l { name = n })

abbrev created : Lease → Option Lease → Server → Result Lease × Server
created l none s = (ok l, insert l.name (some (record l { resource_version = 1 })) s)
created l (some x) s = (err already_exists, s)

abbrev replaced_if : Bool → Lease → ℕ → Server → Result Lease × Server
replaced_if true l v s = (ok l, insert l.name (some (record l { resource_version = suc v })) s)
replaced_if false l v s = (err conflict, s)

abbrev replaced : Lease → Option Lease → Server → Result Lease × Server
replaced l none s = (err not_exist, s)
replaced l (some old) s =
    replaced_if (old.resource_version == l.resource_version) l old.resource_version s

unfoldable server : Api Server
unfolding lookup insert
server = record {
  list = λ n s. ok [];
  get = λ n s. found n (flat (lookup n s));
  create = λ l s. created l (flat (lookup l.name s)) s;
  update = λ l s. replaced l (flat (lookup l.name s)) s;
  delete = λ n s. (ok tt, insert n none s);
}

found_name : (n : Bytes) (x : Option Lease) (l : Lease) → found n x ≡ ok l → l.name ≡ n
found_name n none l e = cc
found_name n (some k) l e = ap (λ (q : Lease). q.name) (sym (ok-injective e))

written :
    (l : Lease) (v : ℕ) (s : Server)
    → found l.name
        (flat (lookup l.name (insert l.name (some (record l { resource_version = v })) s)))
      ≡ ok (record l { resource_version = v })
written l v s =
    ap (λ o. found l.name (flat o))
      (lookup-insert_self l.name (some (record l { resource_version = v })) s)

created_lem :
    (l k : Lease) (x : Option Lease) (s : Server)
    → (created l x s).0 ≡ ok k
    → (found l.name x ≡ err not_exist)
      × ((v : ℕ) × (found l.name (flat (lookup l.name (created l x s).1))
            ≡ ok (record l { resource_version = v })))
created_lem l k none s e = (refl, (1, written l 1 s))
created_lem l k (some x) s e = cc

replaced_lem :
    (l k : Lease) (x : Option Lease) (s : Server)
    → (replaced l x s).0 ≡ ok k
    → ((old : Lease) × (found l.name x ≡ ok old) × (old.resource_version ≡ l.resource_version))
      × ((v : ℕ) × (found l.name (flat (lookup l.name (replaced l x s).1))
            ≡ ok (record l { resource_version = v })))
replaced_lem l k none s e = cc
replaced_lem l k (some old) s e = go (old.resource_version == l.resource_version) refl e
  where
    go :
        (b : Bool)
        → (old.resource_version == l.resource_version) ≡ b
        → (replaced_if b l old.resource_version s).0 ≡ ok k
        → ((o : Lease) × (found l.name (some old) ≡ ok o)
            × (o.resource_version ≡ l.resource_version))
          × ((v : ℕ) × (found l.name
                  (flat (lookup l.name (replaced_if b l old.resource_version s).1))
                ≡ ok (record l { resource_version = v })))
    go true q e' = (
      (record old { name = l.name }, refl, ground arith),
      (suc old.resource_version, written l (suc old.resource_version) s),
    )
    go false q e' = cc

server-ApiLaws : ApiLaws server
unfolding server
server-ApiLaws = record {
  name-get = λ n l s e. found_name n (flat (lookup n s)) l e;
  create_fresh = λ l k s e. (created_lem l k (flat (lookup l.name s)) s e).0;
  get-create = λ l k s e. (created_lem l k (flat (lookup l.name s)) s e).1;
  update_version = λ l k s e. (replaced_lem l k (flat (lookup l.name s)) s e).0;
  get-update = λ l k s e. (replaced_lem l k (flat (lookup l.name s)) s e).1;
  get-delete = λ n s e. ap (λ o. found n (flat o)) (lookup-insert_self n none s);
}

-- Nobody else is there.
alone : Versioned server (λ s. s)
alone = record { same = λ name a b s e e' v. ok-injective (sym e ∙ e') }

abbrev contender : Bytes → Contender
contender who = record {
  lease_name = codes "gpu";
  identity = who;
  duration_seconds = 10;
  entry = none;
}

abbrev entry : Bytes → ℕ → Lease
entry who since = record {
  name = codes "gpu-q-";
  resource_version = 1;
  label = some (codes "gpu");
  holder_identity = some who;
  acquire_time = since;
  renew_time = since;
  lease_duration_seconds = 60;
  lease_transitions = none;
}

-- b came first, and a has died meanwhile.
abbrev queue : List Lease
queue = entry (codes "c") 70_000_000 ∷ entry (codes "b") 60_000_000 ∷ entry (codes "a") 1 ∷ []

b_is_next : position (codes "b") 100_000_000 queue ≡ claim
unfolding position Lease.sort_by_holder Lease.at_most Lease.look_all Lease.look Lease.turn
b_is_next = refl

position-IsFirst_example :
    (mine : Lease) × IsIn mine queue
    × IsLive 100_000_000 mine
    × (holder_of mine ≡ codes "b")
    × IsFirst 100_000_000 mine queue
position-IsFirst_example = position-IsFirst (codes "b") 100_000_000 queue (λ e. cc) b_is_next

abbrev after_b : Server
after_b = (claim_lease server (λ s. s) (contender (codes "b")) 5 []).1

b_claims : (claim_lease server (λ s. s) (contender (codes "b")) 5 []).0 ≡ ok true
unfolding server lookup insert Lease.claim_read claim_lease
b_claims = refl

claim_lease-IsClaimed_example : IsClaimed server (contender (codes "b")) 5 [] after_b
claim_lease-IsClaimed_example =
    claim_lease-IsClaimed server server-ApiLaws (λ s. s) (contender (codes "b")) 5 [] alone b_claims

c_claims : (claim_lease server (λ s. s) (contender (codes "c")) 20_000_000 after_b).0 ≡ ok true
unfolding server lookup insert Lease.claim_read claim_lease
c_claims = refl

claim_lease_exclusive_example : 5 + 10 * second ≤ 20_000_000
claim_lease_exclusive_example =
    claim_lease_exclusive server server-ApiLaws (λ s. s) (λ s. s) (contender (codes "b"))
      (contender (codes "c")) 5 20_000_000 [] after_b alone alone refl b_claims refl c_claims
