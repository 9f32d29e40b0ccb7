-- ===== src/Lib.antt =====
-- ScoutChain: the registration and progress contracts of the Soroban workspace.
--
-- The workspace holds four contracts (contracts/registration, contracts/verification,
-- contracts/progress, contracts/scout_access) over the helpers of contracts/shared-types. This library
-- models contracts/registration, contracts/progress, what they use of contracts/shared-types, and the
-- call between the two.
--
-- Registration keeps the players and scouts: a profile under an id, the id under its wallet, the
-- player's level, an index of all players and one of each level, alone and with a region, which
-- `filter_players` reads. Players and scouts register themselves, are seeded by the administrator, or
-- come with a ticket that they signed for a fresh deployment. Progress keeps each player's level and
-- history. A level moves up by one tier when the verification contract, or the scout access contract
-- for a known milestone, calls `advance_level`, or to any other level when the administrator calls
-- `reset_player_level`. Every change appends an entry to the player's history: under its own key, in a
-- page of eight, and as a leaf of an RFC 6962 tree whose root is kept by a frontier of perfect
-- subtrees. Progress tells registration of each change in the same call, by `set_player_level`, and
-- fails if registration does.
--
-- The files and the code:
-- - Contract: how a call ends. `err` is a returned error and `trap` a panic; both are rolled back by
--   the host, so neither carries a state.
-- - Shared: contracts/shared-types/src/lib.rs. Level is `ProgressLevel`, Types the player profiles and
--   the health report, SafeMath `safe_math`, Wiring the wiring links and `verify_peer`, Admin
--   `require_admin`, Cid `validate_cid`.
-- - Progress.Types: contracts/progress/src/types.rs, errors.rs and events.rs. `State` has one field
--   for each `DataKey`; `Env` is what a call is given; `Effect` is what it emits.
-- - Progress.Hashing, Progress.Merkle: the hashes and the tree of contracts/progress/src/lib.rs
--   (`leaf_hash`, `mth_range`, `frontier_append`, `frontier_root`, `path_range`). Their child modules
--   hold the proofs, so in every component: Merkle.Pow2, Merkle.Range, Merkle.Frontier, Merkle.Paths.
-- - Progress.Storage: the guards and the readers that operations share. Progress.History:
--   `record_progress_entry`. Progress.Levels: `advance_level`, `advance_level_for_scout`,
--   `reset_player_level`. Progress.Admin: initialisation, pausing, wiring, administrator transfer,
--   upgrade, migration window. Progress.Queries: the views. Progress.Seeding: `admin_seed_history` and
--   `purge_player_data`. Progress.Schema: `migrate`. All from contracts/progress/src/lib.rs, each
--   function under its name there.
-- - Progress.Ledger: sequences of calls, each committed or rolled back. It serves every call that
--   changes the storage but `admin_seed_history`, `purge_player_data` and `migrate`.
-- - Registration.Types: contracts/registration/src/types.rs, errors.rs and events.rs, in the same way.
--   The following are from contracts/registration/src/lib.rs. Registration.Text: `trim_upper_into` and
--   the canonical region, position and nationality; a text is the list of its bytes.
--   Registration.Storage: the guards, counters and indexes. Registration.Admin: initialisation,
--   pausing, cooldown, wiring, administrator transfer, upgrade, record recovery. Registration.Players,
--   Registration.Seeding and Registration.Scouts: registration, updates, deactivation and erasure, and
--   seeding by the administrator.
--   Registration.Migration: the signed tickets. Registration.Queries and Registration.Discovery: the
--   views and `filter_players`.
-- - Registration.Directory: what the keys of a player have to say about each other, over
--   Registration.Indexes, with what a call that returned has done in Registration.Guards, Register,
--   Changes, Seeded, Redeemed, Frame and ScoutSteps. Registration.Entered and Registration.Levelled:
--   the same key by key, as Progress.Levels.Outcome has it for the level changes.
--   Registration.Collisions: ids that were seeded. Registration.Lookup: players by their wallets.
-- - Registration.Ledger: sequences of calls, of every call that changes the storage.
-- - Sync: the three calls of progress that change a level, run over the modelled registration contract,
--   and sequences of them. `Effect` records each call of registration that returned to progress; the
--   host keeps what these calls did if the call of progress returned.
-- - Prelude, and Tests in every part: shared lemmas, and runs on concrete data.
--
-- Parameters. The host's SHA-256 and address encoding, the text of an address, the key of an account
-- and the check of an ed25519 signature are functions of `Host`. Authorisation, the ledger's time and
-- sequence, and the answers of other contracts are fields of `Env`; in Sync the answer of registration
-- is computed, on the assumption that the configured address is the modelled contract. Soroban refuses
-- re-entrant calls, so a call of another contract changes nothing of this one's state. An address is a
-- number known by its identity. Whether the host reads a stored profile as a `PlayerProfile` in
-- `restore_player_record` is a field of `Env` too.
--
-- Numbers are natural numbers with the saturation, the checks and the bounds of the code written out.
-- `none` in the tree functions is a trap. The recursions of `mth_range` and `path_range` run on as much
-- fuel as the range has leaves, each part being shorter; the carry loop of `frontier_append` on one
-- round more than there are peaks, since each round removes one; the doubling loop of
-- `largest_pow2_lt` on 32 rounds, which pass every `u32`. The loops of registration are recursions on
-- the list that they read.
--
-- Not modelled: time to live and archival of storage keys, the byte format of events, the budget of
-- the host, getters of a single configuration key or a version, and the contracts verification and
-- scout_access.
pub mod Prelude
pub mod Contract
pub mod Shared
pub mod Progress
pub mod Registration
pub mod Sync
