-- ===== src/Crypto/Merkle/Tree.antt =====
-- The tree whose root `merkle_root` computes (crates/intranet-crypto/src/hash.rs).
use distributed_intranet.Base.{
  ℕ, zero, suc, ◌≤◌, ◌≡◌, refl, ap, sym, ◌∙◌, List, [], ◌∷◌, ◌++◌, map, arith,
}
use distributed_intranet.Base.Lists.{length}
use distributed_intranet.Crypto.{Crypto}
use distributed_intranet.Crypto.Merkle.{merkle_node, next_level, fold_levels, merkle_root}

pub data Tree : Type 0 where
  leaf : ℕ → Tree
  node : Tree → Tree → Tree

abbrev pub leaves : Tree → List ℕ
leaves (leaf h) = h ∷ []
leaves (node l r) = leaves l ++ leaves r

abbrev pub tree_digest : Crypto → Tree → ℕ
tree_digest crypto (leaf h) = h
tree_digest crypto (node l r) = merkle_node crypto (tree_digest crypto l) (tree_digest crypto r)

-- All leaves at one depth.
pub data IsPerfect : ℕ → Tree → Type 0 where
  alone : {h : ℕ} → IsPerfect 0 (leaf h)
  both : {k : ℕ} {l r : Tree} → IsPerfect k l → IsPerfect k r → IsPerfect (suc k) (node l r)

-- Filled from the left: beside a subtree on the right is a perfect one that is at least as high.
pub data IsComplete : ℕ → Tree → Type 0 where
  single : {h : ℕ} → IsComplete 0 (leaf h)
  joined : {k : ℕ} {l r : Tree} → IsPerfect k l → IsComplete k r → IsComplete (suc k) (node l r)
  promoted : {k : ℕ} {t : Tree} → IsComplete k t → IsComplete (suc k) t

-- A level: perfect trees, and a complete one at the end.
data IsLevel (k : ℕ) : List Tree → Type 0 where
  last : {t : Tree} → IsComplete k t → IsLevel k (t ∷ [])
  more : {t u : Tree} {ts : List Tree} → IsPerfect k t → IsLevel k (u ∷ ts) → IsLevel k (t ∷ u ∷ ts)

abbrev pair_up : List Tree → List Tree
pair_up [] = []
pair_up (t ∷ []) = t ∷ []
pair_up (t ∷ u ∷ ts) = node t u ∷ pair_up ts

abbrev all_leaves : List Tree → List ℕ
all_leaves [] = []
all_leaves (t ∷ ts) = leaves t ++ all_leaves ts

append_assoc : (a b c : List ℕ) → (a ++ b) ++ c ≡ a ++ (b ++ c)
append_assoc [] b c = refl
append_assoc (x ∷ a) b c = ap (λ l. x ∷ l) (append_assoc a b c)

append_nil : (a : List ℕ) → a ++ [] ≡ a
append_nil [] = refl
append_nil (x ∷ a) = ap (λ l. x ∷ l) (append_nil a)

all_leaves-pair_up : (ts : List Tree) → all_leaves (pair_up ts) ≡ all_leaves ts
all_leaves-pair_up [] = refl
all_leaves-pair_up (t ∷ []) = refl
all_leaves-pair_up (t ∷ u ∷ ts) =
    rw (all_leaves-pair_up ts) (append_assoc (leaves t) (leaves u) (all_leaves ts))

length-pair_up : (ts : List Tree) → length (pair_up ts) ≤ length ts
length-pair_up [] = omega arith
length-pair_up (t ∷ []) = omega arith
length-pair_up (t ∷ u ∷ ts) = omega (arith, length-pair_up ts)

pair_up-IsLevel :
    {k : ℕ} (t u : Tree) (ts : List Tree)
    → IsLevel k (t ∷ u ∷ ts)
    → IsLevel (suc k) (pair_up (t ∷ u ∷ ts))
pair_up-IsLevel t u [] (more p (last c)) = last (joined p c)
pair_up-IsLevel t u (v ∷ []) (more p (more q (last c))) = more (both p q) (last (promoted c))
pair_up-IsLevel t u (v ∷ w ∷ ts) (more p (more q level)) =
    more (both p q) (pair_up-IsLevel v w ts level)

module _ (crypto : Crypto) where
  map-pair_up :
      (ts : List Tree)
      → map (tree_digest crypto) (pair_up ts) ≡ next_level crypto (map (tree_digest crypto) ts)
  unfolding next_level
  map-pair_up [] = refl
  map-pair_up (t ∷ []) = refl
  map-pair_up (t ∷ u ∷ ts) = ap (λ l. tree_digest crypto (node t u) ∷ l) (map-pair_up ts)

  -- The tree of a list of digests, filled from the left, and its root.
  abbrev pub IsRoot : List ℕ → ℕ → Type 0
  IsRoot digests root =
      (height : ℕ) × (tree : Tree) × IsComplete height tree
      × (leaves tree ≡ digests)
      × (tree_digest crypto tree ≡ root)

  folded :
      (fuel k : ℕ) (t : Tree) (ts : List Tree)
      → length (t ∷ ts) ≤ fuel
      → IsLevel k (t ∷ ts)
      → IsRoot (all_leaves (t ∷ ts)) (fold_levels crypto fuel (map (tree_digest crypto) (t ∷ ts)))
  unfolding fold_levels
  folded fuel k t [] h (last c) = (k, t, c, sym (append_nil (leaves t)), refl)
  folded zero k t (u ∷ ts) h level = absurd (omega arith)
  folded (suc fuel) k t (u ∷ ts) h level =
      let (height, tree, c, same, root) =
        folded fuel (suc k) (node t u) (pair_up ts) (omega (arith, length-pair_up ts))
          (pair_up-IsLevel t u ts level) in
      (
        height,
        tree,
        c,
        same ∙ all_leaves-pair_up (t ∷ u ∷ ts),
        root ∙ ap (fold_levels crypto fuel) (map-pair_up (t ∷ u ∷ ts)),
      )

abbrev singles : List ℕ → List Tree
singles digests = map leaf digests

all_leaves-singles : (digests : List ℕ) → all_leaves (singles digests) ≡ digests
all_leaves-singles [] = refl
all_leaves-singles (h ∷ digests) = ap (λ l. h ∷ l) (all_leaves-singles digests)

map-singles :
    (crypto : Crypto) (digests : List ℕ) → map (tree_digest crypto) (singles digests) ≡ digests
map-singles crypto [] = refl
map-singles crypto (h ∷ digests) = ap (λ l. h ∷ l) (map-singles crypto digests)

length-singles : (digests : List ℕ) → length (singles digests) ≡ length digests
length-singles [] = refl
length-singles (h ∷ digests) = ap suc (length-singles digests)

singles-IsLevel : (h : ℕ) (digests : List ℕ) → IsLevel 0 (singles (h ∷ digests))
singles-IsLevel h [] = last single
singles-IsLevel h (g ∷ digests) = more alone (singles-IsLevel g digests)

-- The Merkle root of one or more digests is the root of a binary tree whose leaves are these
-- digests in their order, where every subtree on the left is perfect and no lower than the one to
-- its right.
pub merkle_root-IsRoot :
    (crypto : Crypto) (first : ℕ) (rest : List ℕ)
    → IsRoot crypto (first ∷ rest) (merkle_root crypto (first ∷ rest))
unfolding merkle_root
merkle_root-IsRoot crypto first rest =
    let (height, tree, c, same, root) =
      folded crypto (length (first ∷ rest)) 0 (leaf first) (singles rest)
        (omega (arith, length-singles rest)) (singles-IsLevel first rest) in
    (
      height,
      tree,
      c,
      same ∙ all_leaves-singles (first ∷ rest),
      root ∙ ap (fold_levels crypto (length (first ∷ rest))) (map-singles crypto (first ∷ rest)),
    )
