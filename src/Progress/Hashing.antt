-- ===== src/Progress/Hashing.antt =====
-- The canonical hashes of contracts/progress/src/lib.rs, over the host's SHA-256.
pub mod Encoding
use scout_off_contracts.Prelude.{ℕ, zero, suc, ◌/◌, ◌%◌, List, [], ◌∷◌, ◌++◌, map, replicate}
use scout_off_contracts.Shared.Level.{
  Level, unverified, verified_identity, performance_milestones, elite_tier,
}
unfoldable pub use scout_off_contracts.Prelude.{to_be_bytes}
use scout_off_contracts.Progress.Types.{Host, Hash, ProgressEntry}

-- The numeric tier code of a leaf.
unfoldable pub level_code : Level → ℕ
level_code unverified = 0
level_code verified_identity = 1
level_code performance_milestones = 2
level_code elite_tier = 3

-- The bytes that `leaf_hash` hashes.
unfoldable pub leaf_bytes : Host → ProgressEntry → List ℕ
unfolding level_code
leaf_bytes host entry =
    0
    ∷ (to_be_bytes 8 entry.player_id
        ++ (to_be_bytes 4 (level_code entry.old_level)
            ++ (to_be_bytes 4 (level_code entry.new_level)
                ++ (host.address_xdr entry.updated_by
                    ++ (to_be_bytes 8 entry.updated_at
                        ++ (to_be_bytes 4 entry.milestone_ref
                            ++ to_be_bytes 4 entry.ledger_sequence))))))

unfoldable pub leaf_hash : Host → ProgressEntry → Hash
unfolding leaf_bytes
leaf_hash host entry = host.sha256 (leaf_bytes host entry)

unfoldable pub node_hash : Host → Hash → Hash → Hash
node_hash host left right = host.sha256 (1 ∷ (left ++ right))

unfoldable pub leaf_hashes : Host → List ProgressEntry → List Hash
leaf_hashes host history = map (leaf_hash host) history

-- The root of a player with no history.
abbrev pub zero_hash : Hash
zero_hash = replicate 32 0
