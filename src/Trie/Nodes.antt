-- ===== src/Trie/Nodes.antt =====
-- The nodes of the wildcard trie (struct Node of include/kvik/wildcard_trie.hpp). An unordered_map
-- from level to child is the list of its entries; the theorems depend on no order of them.
use kvik.Base.{
  ◌≡◌, ℕ, suc, Bool, true, false, not, ◌||◌, List, [], ◌∷◌, Option, none, some, ite, Str, str_dec,
  if◌then◌else◌,
}

mutual
  pub data Node {ℓ} (V : Type ℓ) : Type ℓ where
    node : V → Childs V → ℕ → Bool → Node V

  pub data Childs {ℓ} (V : Type ℓ) : Type ℓ where
    nil : Childs V
    entry : Str → Node V → Childs V → Childs V

module _ {ℓ} {V : Type ℓ} where
  abbrev pub value : Node V → V
  value (node v cs i leaf) = v

  abbrev pub childs : Node V → Childs V
  childs (node v cs i leaf) = cs

  abbrev pub level_index : Node V → ℕ
  level_index (node v cs i leaf) = i

  abbrev pub is_leaf : Node V → Bool
  is_leaf (node v cs i leaf) = leaf

  abbrev pub set_childs : Childs V → Node V → Node V
  set_childs ds (node v cs i leaf) = node v ds i leaf

  abbrev pub set_leaf : Bool → Node V → Node V
  set_leaf b (node v cs i leaf) = node v cs i b

  -- `childs.find(level)`
  unfoldable pub find_child : Str → Childs V → Option (Node V)
  find_child l nil = none
  find_child l (entry k n cs) = ite (str_dec k l) (some n) (find_child l cs)

  -- `childs.empty()`
  abbrev pub no_childs : Childs V → Bool
  no_childs nil = true
  no_childs (entry k n cs) = false

  -- `childs.size() > 1`
  abbrev pub many_childs : Childs V → Bool
  many_childs nil = false
  many_childs (entry k n nil) = false
  many_childs (entry k n (entry k' n' cs)) = true

  -- `childs.erase(level)`
  unfoldable pub erase_child : Str → Childs V → Childs V
  erase_child l nil = nil
  erase_child l (entry k n cs) = ite (str_dec k l) cs (entry k n (erase_child l cs))

  -- The child is changed in place.
  unfoldable pub set_child : Str → Node V → Childs V → Childs V
  set_child l m nil = nil
  set_child l m (entry k n cs) = ite (str_dec k l) (entry k m cs) (entry k n (set_child l m cs))

  -- Get or create a child, and change it.
  unfoldable pub upsert : Str → (Node V → Node V) → Node V → Childs V → Childs V
  upsert l g fresh nil = entry l (g fresh) nil
  upsert l g fresh (entry k n cs) =
      ite (str_dec k l) (entry k (g n) cs) (entry k n (upsert l g fresh cs))

  -- The contents: the value of a leaf at a path of levels.
  unfoldable pub get : List Str → Node V → Option V
  get [] n = if is_leaf n then some (value n) else none
  get (l ∷ ls) n = elim (find_child l (childs n)) [ none ↦ none | some c ↦ get ls c ]

  -- A node that some key needs: a leaf, or an inner node with children.
  abbrev pub is_live : Node V → Bool
  is_live n = is_leaf n || not (no_childs (childs n))

  -- The shape that every operation keeps: `levelIndex` is the depth, the levels of the children
  -- differ, and no child is redundant.
  abbrev mutual
    pub IsWf : ℕ → Node V → Type ℓ
    IsWf d (node v cs i leaf) = (i ≡ d) × AreWf (suc d) cs

    pub AreWf : ℕ → Childs V → Type ℓ
    AreWf d nil = Unit {ℓ}
    AreWf d (entry k n cs) = IsWf d n × (is_live n ≡ true) × (find_child k cs ≡ none) × AreWf d cs
