-- ===== src/Crypto/Merkle.antt =====
-- crates/intranet-crypto/src/hash.rs: `merkle_root`.
pub mod Tree
use distributed_intranet.Base.{ℕ, zero, suc, List, [], ◌∷◌}
use distributed_intranet.Base.Lists.{length}
use distributed_intranet.Crypto.{Crypto}
use distributed_intranet.Crypto.Enc.{◌▸◌, domain, fixed}

module _ (crypto : Crypto) where
  unfoldable pub merkle_node : ℕ → ℕ → ℕ
  unfolding domain fixed
  merkle_node left right =
      crypto.hash_bytes (domain "intranet.merkle.node.v1" ▸ fixed 32 left ▸ fixed 32 right)

  -- one round of `level.chunks(2)`
  unfoldable pub next_level : List ℕ → List ℕ
  unfolding merkle_node
  next_level [] = []
  next_level (a ∷ []) = a ∷ []
  next_level (a ∷ b ∷ rest) = merkle_node a b ∷ next_level rest

  -- `while level.len() > 1`, then `level[0]`; the rounds left are the fuel.
  unfoldable pub fold_levels : ℕ → List ℕ → ℕ
  unfolding next_level
  fold_levels fuel [] = 0
  fold_levels fuel (a ∷ []) = a
  fold_levels zero (a ∷ b ∷ rest) = 0
  fold_levels (suc fuel) (a ∷ b ∷ rest) = fold_levels fuel (next_level (a ∷ b ∷ rest))

  -- A level of n digests has at most n rounds. `Hash::ZERO` is 0.
  unfoldable pub merkle_root : List ℕ → ℕ
  unfolding fold_levels
  merkle_root leaves = fold_levels (length leaves) leaves
