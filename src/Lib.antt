-- ===== src/Lib.antt =====
-- Contrast: the Coordinator, its history of manifests, and what these stand on.
--
-- The Coordinator keeps the manifest of a deployment. Users set manifests and read them, and recover
-- a restarted Coordinator with the secret seed. Each manifest extends a chain of transitions, whose
-- head is signed by a key that is derived from the seed, in a store that several Coordinators share.
--
-- The parts, from the bottom, and the files of the repository that they model:
--   Prelude      results, chains of steps that may fail, maps as association lists, byte strings.
--   Crypto       what the program takes from Go's crypto packages, as a parameter with laws.
--   Store        internal/history/history.go, the interface of a store with what it promises;
--                Store/Afero is internal/history/aferostore/aferostore.go, and Store/ConfigMap
--                internal/history/configmapstore/configmapstore.go, where others act between the two
--                API calls of a method. Store/Keys has the names of keys and objects.
--   History      internal/history/history.go: content-addressed records with their cache, transitions,
--                the latest transition, the walk over the chain (History/Encoding has the formats).
--   Platforms    internal/platforms/platforms.go: the names and kinds of platforms.
--   SeedEngine   internal/seedengine/seedengine.go: keys derived from a seed.
--   Ca           internal/ca/ca.go: the certificate authority.
--   Manifest     internal/manifest/manifest.go, referencevalues.go and crypto.go: the manifest, its
--                validation (Manifest/Validation has the trees of errors, Manifest/Values the
--                reference values), the keys of its owners.
--   Guard        coordinator/internal/stateguard/stateguard.go: the state of the Coordinator. A *State
--                is an index into the list of all states that were made, so that a comparison of
--                pointers is one of indices, and a stale state is seen by whoever still holds it.
--   UserApi      coordinator/internal/userapi/userapi.go: SetManifest, GetManifests and Recover, whose
--                outcome is a reply, a status, another error or a panic.
--   MeshApi      coordinator/internal/meshapi/meshapi.go: NewMeshCert and Recover, for workloads and for
--                other Coordinators whose report the handshake has checked.
--   PeerRecovery coordinator/internal/peerrecovery/recovery.go: a round of recovery from the other
--                Coordinators, which are asked one after the other.
--   TransitEngine
--                coordinator/internal/transitengineapi/crypto.go and transitengineapi.go: encryption
--                for workloads under keys of the seed.
--   Retry        internal/retry/retry.go: the loop that retries an operation at an interval.
--   Certcache    internal/attestation/certcache/cached_client.go and retry_client.go, and
--                internal/memstore/memstore.go: the cache before the certificate services.
--   Qgs          internal/attestation/tdx/qgs/qgs.go and client.go: the messages exchanged with the
--                quote generation service.
--   Initdata     internal/initdata/initdata.go: the document with which a pod VM is started.
--   ServiceMesh  service-mesh/config.go and iptables.go: the sidecar's configuration (Config), that of
--                Envoy (Envoy, with its API's data types in Messages) and the rules of the packet
--                filter (IpTables).
--   Lease        tools/fifo/internal/lease/lease.go: the queue for shared test resources.
--   Tests        the theorems at concrete inputs, over small instances of the parameters.
--
-- The APIs call the guard, the guard the history, and the history a store. A state is passed
-- along explicitly, and comes back beside an error too, since what was written before it stays. One
-- number stands for all the randomness of a call. What other requests do between the reading of the
-- state and the update is an argument of SetManifest; all else that holds a lock is one step.
--
-- Fuel: the walk over the chain has no bound in the source, so it takes fuel here. More fuel than the
-- chain has transitions is enough, which the theorems about the walk show rather than assume. The loop
-- that retries takes fuel for its turns, and more than there are before a deadline is enough. Twenty
-- digits are enough for a number of 64 bits. Numbers are natural numbers; a byte is one below 256.
--
-- Goroutines share memory in one place that a theorem is about: append may put a peer's host behind the
-- SANs of a policy, in an array that calls for that policy share. Whether there is room, and what the
-- place holds when the certificate is made, is an argument of NewMeshCert.
--
-- Parameters: cryptography, certificates, JSON, the file system, the API server, random bytes and the
-- discovery of peers are not in the repository, and neither are AES-GCM, base64, TOML, gzip, netip,
-- protobuf and go-iptables. Their documented behaviour is in the records CryptoLaws, FileSystemLaws,
-- ClientLaws, ApiLaws, AeadLaws, CodecsLaws and IpTablesLaws, and in JsonLaws, NetLaws and IsMonotone.
-- No theorem assumes that digests never collide.
--
-- Not modelled: the channels of the watchers, RecoverConfigMaps, the TLS configuration of the transit
-- engine, the validation of attestation reports, and the command line, node
-- and image tools, which are glue over other programs.
pub mod Prelude
pub mod Crypto
pub mod Store
pub mod History
pub mod Platforms
pub mod SeedEngine
pub mod Ca
pub mod Manifest
pub mod Guard
pub mod UserApi
pub mod MeshApi
pub mod PeerRecovery
pub mod TransitEngine
pub mod Retry
pub mod Certcache
pub mod Qgs
pub mod Initdata
pub mod ServiceMesh
pub mod Lease
pub mod Tests
