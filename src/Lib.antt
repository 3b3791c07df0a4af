-- ===== src/Lib.antt =====
-- PulseSyn, a protocol in which validators vote on claims and a weighted consensus declares a
-- verdict: its Go packages core/, merkle/, store/, chain/ and simulation/.
--
-- A submission becomes a claim (core/claim), which goes through a lifecycle from SUBMITTED to
-- FINALIZED. A session selects validators by their reputation and bias, collects their votes, and
-- calls core/consensus, which weighs each vote by the validator's confidence, its reputation in
-- the domain and its bias, and declares a verdict. core/reputation then changes the reputation
-- record of each validator by its outcome, and decays the records of inactive ones; merkle
-- commits to the votes of a session, hashed one by one, by the root of a tree. core/bias keeps a
-- sliding window of observations for each validator and domain, whose coefficient reduces the
-- weight of later votes. The packages share the verdict's strings and nothing else; the values
-- that one computes reach another through its caller.
--
-- Which file models what:
--   Verdict                    core/consensus/result.go: VerdictState
--   Consensus/Votes            core/consensus/consensus.go: Vote, validateVote, the errors
--   Consensus/Compute          core/consensus/consensus.go: ComputeConsensus, aggregateWeights,
--                              adjustedWeight, findWinner, computeConfidence
--   Consensus/*                proofs on these
--   Reputation/Record          core/reputation/reputation.go: ValidatorRecord and its methods,
--                              NewValidatorRecord, NewGenesisValidatorRecord, clamp
--   Reputation/Updates         core/reputation/updates.go: ApplyPostFinalizationUpdate, computeDelta
--   Reputation/Decays          core/reputation/decay.go: ApplyDecay
--   Reputation/History         records reached by registration, updates and decays
--   Bias/Window                core/bias/bias.go: NewWindow, Add, ComputeBias, classifyTier
--   Bias/Track                 core/bias/bias.go: Tracker, Record, BiasFor, ObservationCount
--   Claim/Schema               core/claim/claim.go: NewClaim, validateInput, computeClaimID
--   Claim/Lifecycle            core/claim/lifecycle.go: Transition, IsTerminal
--   Merkle/Tree                merkle/merkle.go: Build, Root, GenerateProof, VerifyProof
--   Merkle/Vote                merkle/merkle.go: HashVote
--   Store/Keys                 store/keys.go
--   Store/Records              store/vote.go, store/validation.go: the records and their validation
--   Store/Base                 store/store.go: transactions, readValue, marshal
--   Store/Claims               store/claim.go, store/validator.go
--   Store/Validations          store/vote.go, store/validation.go: writes, reads and queries
--   Store/Badger, Store/Memory what is assumed of Badger, and a database that meets it
--   Chain/Adapter              chain/adapter.go
--   Simulation/Config          simulation/config.go
--   Simulation/Pool            simulation/validator.go, and the random source
--   Simulation/Round           simulation/round.go
--   Simulation/Report          simulation/report.go, simulation/simulation.go
--   Bias/*, Claim/*, Merkle/*, proofs on these
--   Reputation/*, Store/*,
--   Chain/*, Simulation/*
--   Float                      float64: operations, laws, and a model of the laws
--   Text, Dict, Prelude        strings, maps, shared notation and lemmas
--
-- A name of the source is written in lower case with underscores: ComputeConsensus is
-- compute_consensus. Tracker.Record is record_observation.
--
-- float64 is a parameter: a type with the operations of Float/Interface, and the laws of
-- Float/Laws, which IEEE 754 doubles with rounding to nearest satisfy, NaN and infinities
-- included. No law says that addition is associative or exact. Float/Fixed and Float/WithNan give
-- numbers that satisfy the laws, and the examples compute with them. math.Pow is one of the
-- operations; of it only the range for a base in [0, 1] and an exponent of at least 0 is assumed.
--
-- A constant expression of Go is exact until it is converted, so it is the double nearest to a
-- fraction: 2.0 / 3.0 is ratio 2 3.
--
-- A string is the list of its code points. strings.TrimSpace is written out; strings.ToLower is
-- written out for ASCII, and beyond it is a parameter (CaseTable) that is assumed to be
-- idempotent and to keep white space and other characters apart. A map is an association list in
-- which a key stands once; its order is the order of a range loop, and no theorem depends on it.
-- A pointer that a map holds is the value in the map: Window.Add on a window of the tracker
-- stores the changed window. Where a call fails, the state after it is kept beside the error. A
-- uint64 counter wraps around modulo 2^64; an int is an integer that does not overflow: the core
-- packages only compare it, and the simulation counts rounds and validators with it.
--
-- What core/claim uses of the network, of time and of SHA-256 is a record of functions (World),
-- of which nothing is assumed. In merkle, SHA-256 is a parameter, a function on lists of bytes;
-- where a theorem needs it, its digests are assumed to have 32 bytes, and instead of assuming
-- that there is no collision the theorem says which one there would be. The loop of Build runs on
-- fuel, as many rounds as there are leaves, and is proved to reach a single root.
--
-- The store's database is a parameter (Engine): its operations may fail at any call, with a
-- message, and where they do not they meet the laws of IsBadger, which say what the database
-- holds after each and what a scan finds. A transaction is a state that is committed or dropped,
-- and calls follow one another. encoding/json is a parameter too (Codec), assumed to decode what
-- it encoded where a theorem says so; a record stands for what JSON carries of it, without the
-- monotonic reading of a time. The value written for an index entry is empty.
--
-- simulation runs consensus, reputation and bias on synthetic claims. math/rand, as functions of
-- the state of a source, and the conversion int(x) are a parameter (Random), of which nothing is
-- assumed. A pointer into the pool of validators is a place in the list, an assignment through it
-- replaces the validator there, and a place out of range is an error. A loop is recursion on the
-- rounds, validators or iterations that are left.
--
-- Sums of up to 2^53 scores are covered, the largest count that float64 holds exactly, and up to
-- 2^50 validators where two quotients are compared, for which 53 bits keep different fractions
-- apart.
--
-- Not modelled: the wording of error messages; Report.Summary of the simulation, which formats
-- the report as text; Open, Close and RunGC of the store, which only call Badger;
-- chain/contracts, which is Solidity; api, network, sdk, selector and session, which hold no
-- code.
pub mod Prelude
pub mod Text
pub mod Float
pub mod Dict
pub mod Verdict
pub mod Consensus
pub mod Reputation
pub mod Bias
pub mod Merkle
pub mod Claim
pub mod Chain
pub mod Store
pub mod Simulation
