-- ===== src/Lib.antt =====
-- A model of the distributed intranet: the governance core, the ledger of offers, and the
-- guards on what a node spends on others.
--
-- The program is a peer-to-peer network without servers. Each network has a log of signed entries;
-- replaying the log computes the state that every node enforces: who is in which group, what each
-- group may do, which devices are revoked, what has been put to a vote. Around it stand the crates
-- for content, messaging, epochs of encryption, search, invitations and the transport.
--
-- Parts and files:
--   Base, Map        Boolean tests, lists, i64 and u64 arithmetic, orders; BTreeMap as a list of
--                    entries in key order, with what its operations do to lookups, lengths, counts.
--   Crypto           crates/intranet-crypto: Crypto/Enc is enc.rs byte for byte, Crypto/Time is
--                    time.rs, Crypto/Dec is dec.rs, Crypto/Merkle is merkle_root of hash.rs.
--                    BLAKE3 and Ed25519 are third-party code: a Crypto is any hash
--                    function and any verifier.
--   Identity         crates/intranet-identity/src/device.rs: device certificates, revocations.
--   Governance       crates/intranet-governance: Capability (capability.rs), Policy (policy.rs),
--                    Error (error.rs), Group (group.rs), Vote (vote.rs), Entry (entry.rs),
--                    Log (log.rs: insertion; Log/Fork has fork choice and Log/Finality reconcile).
--   Governance/Wire  wire.rs: Wire, Wire/Policy, Wire/Votes and Wire/Body read the parts of an entry,
--                    Wire/Entry entries, Wire/Sync and Wire/Ballots the messages. The other children
--                    prove that what an encoder appends is read back. Whether 32 bytes are a key is
--                    Ed25519's business: a parameter.
--   Governance/State state.rs: State has the record and its queries, State/Tier tier_of,
--                    State/Cascade remove_membership, State/Authorize authorize, State/Mutate
--                    mutate, genesis, apply and replay. A step returns a Result of the next state.
--                    Ceiling, Membership, Addition, Revocation, SelfRemoval, SameTiers, VoteSteps and
--                    VoteFloor prove.
--   Ledger           crates/intranet-ledger: Advertisement (advertisement.rs), Placement
--                    (placement.rs), Entries (lib.rs), Reliability and Audit (reliability.rs);
--                    Order, Genuine, Replicas and Audited prove. The f64 of a failure rate and the
--                    responder's signature are parameters.
--   Invite           crates/intranet-invite/src/waiting_room.rs: WaitingRoom; Waiting proves.
--   Transport        crates/intranet-transport: MediaRelay (media_limits.rs) and Relay
--                    (relay_limits.rs) and DirectMeter (direct_limits.rs). A method on `&mut self`
--                    returns its answer and the guard after it.
--
-- How they interact: apply checks the signature (Entry, Crypto), calls authorize, which asks
-- tier-free capability questions of the groups or looks the action's hash up among the votes that
-- passed (Vote), then mutate, and checks the candidate state, where tier_of follows chains of
-- groups. A message is decoded (Wire), its entries are inserted into the log, and the canonical
-- chain that fork choice finds is replayed. Time never comes from a clock but from entries and
-- arguments.
--
-- Fuel: tier_of_inner gets one more than the number of groups, cascade_loop one more than the
-- number of members, fold_levels the number of digests, and the walks of the log (climb, seek,
-- best_branch) the number of entries or one more. The theorems on them show that the fuel
-- does not run out. Numbers: identities, digests and keys are the numbers that their bytes spell;
-- u64 counters wrap round or saturate as the source says; timestamps are i64.
--
-- Not modelled: ancestors_first of the log, the wire codecs of the other crates, key derivation,
-- encryption, storage, search, epochs, invitations, calls, the application
-- registry, the network node and the command-line harness.
pub mod Base
pub mod Map
pub mod Crypto
pub mod Identity
pub mod Governance
pub mod Ledger
pub mod Invite
pub mod Transport
