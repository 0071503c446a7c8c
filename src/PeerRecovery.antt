-- ===== src/PeerRecovery.antt =====
-- coordinator/internal/peerrecovery/recovery.go: a Coordinator whose state is stale asks the others for
-- the seed. The ticker of RunRecovery is not modelled: it is the sequence of its rounds. A dereference
-- of nil is a panic, which ends a round at once.
pub mod Rounds
use contrast.Prelude.{
  Bytes, Result, ok, err, Error, nil_dereference, other, ◌>>=◌, Option, none, some, ℕ, List, [],
  ◌∷◌,
}
use contrast.Prelude.Execs.{Exec, lift}
use contrast.Store.{Store}
use contrast.History.{History}
use contrast.SeedEngine
use contrast.SeedEngine.{SeedEngine}
use contrast.Manifest.{Manifest}
use contrast.MeshApi.{RecoverResponse}
use contrast.Guard.{Env, Guard, Answer, stale_state}
use contrast.Guard.Methods.{get_state, reset_state}

-- The other Coordinators, during one round.
pub record Peers : Type 0 where
  -- peerGetter.GetPeers
  pub get_peers : Result (List Bytes)
  -- A connection to a peer whose report the manifest's validator for Coordinators accepts, and the
  -- call of Recover over it.
  pub ask : Manifest → Bytes → Result RecoverResponse
  -- pem.Decode, and x509.ParseECPrivateKey of the block
  pub decode_pem : Bytes → Option Bytes
  pub parse_ec_key : Bytes → Option Bytes

-- A failed attempt is logged, and the next peer asked; a panic is not.
pub data RoundOutcome : Type 0 where
  nothing_to_do : RoundOutcome
  recovered : ℕ → RoundOutcome
  no_peers : RoundOutcome
  undiscovered : Error → RoundOutcome
  all_failed : List Error → RoundOutcome
  panicked : RoundOutcome

-- What follows an attempt, with the rest of the round.
abbrev pub after_attempt :
    {S : Type 0}
    → Result ℕ × Guard S
    → List Error
    → (List Error → Guard S → RoundOutcome × Guard S)
    → RoundOutcome × Guard S
after_attempt (ok p, g) errs rest = (recovered p, g)
after_attempt (err nil_dereference, g) errs rest = (panicked, g)
after_attempt (err e, g) errs rest = rest (e ∷ errs) g

module _ {S : Type 0} (store : Store S) (env : Env) (peers : Peers) where
  abbrev pub parsed_key : Option Bytes → Result Bytes
  parsed_key none = err (other 0)
  parsed_key (some key) = ok key

  abbrev pub block_key : Option Bytes → Result Bytes
  block_key none = err nil_dereference
  block_key (some block) = parsed_key (peers.parse_ec_key block)

  -- What is made of a response.
  abbrev pub secrets_of : RecoverResponse → Result (SeedEngine × Bytes)
  secrets_of resp = do
    se ← SeedEngine.new env.crypto resp.seed resp.salt
    key ← block_key (peers.decode_pem resp.mesh_ca_key)
    ok (se, key)

  -- authorizer.AuthorizeByManifest, for a peer
  unfoldable pub authorize_by_manifest : Bytes → Manifest → Result (SeedEngine × Bytes)
  authorize_by_manifest peer mnfst = peers.ask mnfst peer >>= secrets_of

  abbrev pub authorizer : Bytes → Manifest → Exec (History S) (SeedEngine × Bytes)
  authorizer peer mnfst = lift (authorize_by_manifest peer mnfst)

  -- recoverFromPeer
  unfoldable pub recover_from_peer : ℕ → ℕ → Option ℕ → Bytes → Guard S → Result ℕ × Guard S
  unfolding authorize_by_manifest
  recover_from_peer fuel rand old peer g = reset_state store env fuel rand old (authorizer peer) g

  -- The loop over the peers, with the errors so far, the last one first.
  unfoldable pub try_peers :
      ℕ → ℕ → Option ℕ → List Bytes → List Error → Guard S → RoundOutcome × Guard S
  unfolding recover_from_peer
  try_peers fuel rand old [] errs g = (all_failed errs, g)
  try_peers fuel rand old (peer ∷ rest) errs g =
      after_attempt (recover_from_peer fuel rand old peer g) errs
        (λ errs g. try_peers fuel rand old rest errs g)

  abbrev pub with_peers : ℕ → ℕ → Option ℕ → Result (List Bytes) → Guard S → RoundOutcome × Guard S
  with_peers fuel rand old (err e) g = (undiscovered e, g)
  with_peers fuel rand old (ok []) g = (no_peers, g)
  with_peers fuel rand old (ok (peer ∷ rest)) g = try_peers fuel rand old (peer ∷ rest) [] g

  abbrev pub if_stale : ℕ → ℕ → Answer → Guard S → RoundOutcome × Guard S
  if_stale fuel rand (stale_state old) g = with_peers fuel rand old peers.get_peers g
  if_stale fuel rand _ g = (nothing_to_do, g)

  -- RecoverOnce
  unfoldable pub recover_once : ℕ → ℕ → Guard S → RoundOutcome × Guard S
  unfolding try_peers
  recover_once fuel rand g = if_stale fuel rand (get_state store env g) g
