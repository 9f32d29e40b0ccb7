-- ===== src/Progress/Queries/Proofs.antt =====
-- The Merkle inclusion proofs of contracts/progress/src/lib.rs, from `get_history_proof` to
-- `verify_history_proof`.
use native.Mathlib.Decide.{dec_lt}
use scout_off_contracts.Prelude.{
  ℕ, zero, suc, ◌-◌, ◌≤◌, ◌<◌, ◌≡◌, refl, true, false, some, List, [], ◌∷◌, arith, ltb, ◌==◌,
  ==_refl, length, length-map, get_elem?, get_elem?-map, get_elem?-ge, Option-cases, inl, inr,
  subst,
}
use scout_off_contracts.Contract.{ok}
use scout_off_contracts.Progress.Types.{Hash, Env, State, ProgressEntry, HistoryProofStep}
use scout_off_contracts.Progress.Hashing.{leaf_hash, leaf_hashes}
use scout_off_contracts.Progress.Storage.{read_history_pages}
use scout_off_contracts.Progress.Merkle.{
  mth_range, path_range, replay_steps, compute_root_from_proof,
}
use scout_off_contracts.Progress.Merkle.Pow2.{pow2}
use scout_off_contracts.Progress.Merkle.Paths.{IsPath, path_range-IsPath}
use scout_off_contracts.Progress.History.Invariant.{
  HasHistory, RootHolds, read_history_pages-eq-history,
}
use scout_off_contracts.Progress.Levels.Chain.{AreOf, PlayerHolds}
use scout_off_contracts.Progress.Queries.{hash_eq, get_history_proof, verify_history_proof}

hash_eq_refl : (h : Hash) → hash_eq h h ≡ true
unfolding hash_eq
hash_eq_refl [] = refl
hash_eq_refl (a ∷ h) = rw (==_refl a, hash_eq_refl h)

AreOf-get_elem? :
    (player_id : ℕ) (es : List ProgressEntry) (i : ℕ) {e : ProgressEntry}
    → AreOf player_id es
    → get_elem? es i ≡ some e
    → e.player_id ≡ player_id
AreOf-get_elem? player_id [] i h q = cc
AreOf-get_elem? player_id (x ∷ es) zero {e} h q =
    let same : x ≡ e = cc q in subst (λ (y : ProgressEntry). y.player_id ≡ player_id) same h.0
AreOf-get_elem? player_id (x ∷ es) (suc i) h q = AreOf-get_elem? player_id es i h.1 q

module _ (env : Env) (s : State) (player_id : ℕ) (history : List ProgressEntry) (index : ℕ)
    (entry : ProgressEntry) where
  index_bound : get_elem? history index ≡ some entry → index < length history
  index_bound e = elim (dec_lt index (length history)) [
    | yes b ↦ b
    | no big ↦ cc (e, get_elem?-ge history index (omega arith))
  ]

  -- The audit path of the entry, in the tree of the history.
  audit-IsPath :
      length history ≤ 512
      → get_elem? history index ≡ some entry
      → (proof : List HistoryProofStep) × (path_range env.host
            (leaf_hashes env.host history)
            index
            0
            (length history)
          ≡ some proof)
        × IsPath env.host
            (leaf_hashes env.host history)
            0
            (length history)
            (leaf_hash env.host entry)
            9
            proof
  unfolding pow2 leaf_hashes
  audit-IsPath few e =
      path_range-IsPath env.host (leaf_hashes env.host history) index 0 (length history) 9
        (omega arith) (index_bound e) (omega (arith, length-map (leaf_hash env.host) history))
        (omega arith) (omega arith) (get_elem?-map (leaf_hash env.host) history index e)

  get_history_proof-eq-path_range :
      {proof : List HistoryProofStep}
      → HasHistory env.host s player_id history
      → length history ≤ 512
      → get_elem? history index ≡ some entry
      → path_range env.host (leaf_hashes env.host history) index 0 (length history) ≡ some proof
      → get_history_proof env player_id (suc index) s ≡ ok (proof, s)
  unfolding get_history_proof
  get_history_proof-eq-path_range h few e path =
      let inside = index_bound e in
      let read : read_history_pages s player_id ≡ history =
        read_history_pages-eq-history s player_id history
          (record { counted = h.counter; keyed = λ i b. h.entries i; paged = h.pages })
          (omega arith) in
      let a : ltb 512 (length history) ≡ false = ground arith in
      let b : (length history == 0) ≡ false = ground arith in
      let c : ltb (length history) (suc index) ≡ false = ground arith in
      let d : (suc index == 0) ≡ false = ground arith in
      let below : suc index - 1 ≡ index = omega arith in
      rw (h.counter, a, read, a, b, c, d, below, path)

  stored_root-eq-replay :
      (proof : List HistoryProofStep)
      → HasHistory env.host s player_id history
      → 0 < length history
      → mth_range env.host (leaf_hashes env.host history) 0 (length history)
        ≡ some (replay_steps env.host (leaf_hash env.host entry) proof)
      → s.history_root player_id ≡ some (compute_root_from_proof env.host entry proof)
  unfolding compute_root_from_proof
  stored_root-eq-replay proof h b e = elim (Option-cases (s.history_root player_id)) [
    | inl missing ↦
        let empty : length history ≡ 0 = subst (RootHolds env.host history) missing h.root in
        absurd (omega arith)
    | inr (root, stored) ↦
        let committed = subst (RootHolds env.host history) stored h.root in
        cc (stored, committed, e)
  ]

  -- For every entry of a stored history of at most 512, `get_history_proof` returns a proof, and
  -- `verify_history_proof` accepts that proof for that entry.
  pub get_history_proof-verifies :
      PlayerHolds env.host s player_id history
      → length history ≤ 512
      → get_elem? history index ≡ some entry
      → (proof : List HistoryProofStep) × (get_history_proof env player_id (suc index) s
          ≡ ok (proof, s))
        × (verify_history_proof env player_id entry proof s ≡ ok (true, s))
  unfolding verify_history_proof
  get_history_proof-verifies h few e =
      let (proof, path, (replayed, short)) = audit-IsPath few e in
      let stored = stored_root-eq-replay proof h.stored (omega (arith, index_bound e)) replayed in
      let own = AreOf-get_elem? player_id history index h.own e in
      let a : ltb 32 (length proof) ≡ false = ground arith in
      (
        proof,
        get_history_proof-eq-path_range h.stored few e path,
        rw (stored, a, own, ==_refl player_id, hash_eq_refl),
      )
