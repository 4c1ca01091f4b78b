-- ===== src/Crypto/Tests.antt =====
-- The Merkle root of three digests.
use distributed_intranet.Base.{◌≡◌, refl, [], ◌∷◌, true}
use distributed_intranet.Base.Lists.{length}
use distributed_intranet.Crypto.{Crypto}
use distributed_intranet.Crypto.Merkle.{merkle_node, merkle_root}
use distributed_intranet.Crypto.Merkle.Tree.{IsRoot, merkle_root-IsRoot}

abbrev measured : Crypto
measured = record { hash_bytes = length; verify = λ _ _ _. true }

merkle_root-IsRoot_example :
    IsRoot measured (8 ∷ 6 ∷ 7 ∷ []) (merkle_root measured (8 ∷ 6 ∷ 7 ∷ []))
merkle_root-IsRoot_example = merkle_root-IsRoot measured 8 (6 ∷ 7 ∷ [])

three_digests :
    merkle_root measured (8 ∷ 6 ∷ 7 ∷ []) ≡ merkle_node measured (merkle_node measured 8 6) 7
unfolding merkle_root
three_digests = refl
