-- ===== src/Trie/Remove.antt =====
-- `remove` (include/kvik/wildcard_trie.hpp) with its explicit stack of ancestors, and a recursive
-- removal.
use kvik.Base.{
  ◌≡◌, refl, ◌∙◌, Bool, true, false, ◌||◌, List, [], ◌∷◌, Option, none, some, Str, arith,
  Option-cases, inl, inr, if◌then◌else◌,
}
use kvik.Trie.Nodes.{
  Node, childs, is_leaf, find_child, no_childs, set_childs, set_leaf, many_childs, set_child,
  erase_child,
}
use kvik.Trie.Ops.{Stack, descend, rebuild, delete_redundant, or_else, unlink, remove_path}

-- What a removal below a node makes of the node.
pub data Removed {ℓ} (V : Type ℓ) : Type ℓ where
  missing dropped : Removed V
  kept : Node V → Removed V

module _ {ℓ} {V : Type ℓ} where
  -- One level up.
  abbrev pub above : Str → Node V → Removed V → Removed V
  above l n missing = missing
  above l n (kept c) = kept (set_childs (set_child l c (childs n)) n)
  above l n dropped =
      if is_leaf n || many_childs (childs n)
      then kept (set_childs (erase_child l (childs n)) n)
      else dropped

  unfoldable pub rem : List Str → Node V → Removed V
  rem [] n =
      if is_leaf n
      then (if no_childs (childs n) then dropped else kept (set_leaf false n))
      else missing
  rem (l ∷ ls) n = elim (find_child l (childs n)) [ none ↦ missing | some c ↦ above l n (rem ls c) ]

  -- At the root, whose child `l` the walk took.
  abbrev pub at_root : Str → Node V → Removed V → Node V × Bool
  at_root l root missing = (root, false)
  at_root l root (kept c) = (set_childs (set_child l c (childs root)) root, true)
  at_root l root dropped = (set_childs (erase_child l (childs root)) root, true)

  abbrev pub remove_rec : List Str → Node V → Node V × Bool
  remove_rec [] root = (root, false)
  remove_rec (l ∷ ls) root = elim (find_child l (childs root)) [
    | none ↦ (root, false)
    | some c ↦ at_root l root (rem ls c)
  ]

  -- The outcome of the walk and of what follows it, from the middle of the walk.
  abbrev finish : Node V → Removed V → Stack V → Node V × Bool
  finish root missing stack = (root, false)
  finish root (kept n) stack = (rebuild n stack, true)
  finish root dropped stack = (or_else (delete_redundant stack) root, true)

  abbrev walked : Node V → Option (Node V × Stack V) → Node V × Bool
  walked root none = (root, false)
  walked root (some (cur, stack)) = if is_leaf cur then (unlink cur stack, true) else (root, false)

  delete_redundant-some :
      (p : Node V) (l : Str) (stack : Stack V) (m n : Node V)
      → or_else (delete_redundant ((p, l) ∷ stack)) m
        ≡ or_else (delete_redundant ((p, l) ∷ stack)) n
  unfolding delete_redundant
  delete_redundant-some p l [] m n = ground arith
  delete_redundant-some p l ((p', l') ∷ stack) m n =
      ground (arith, delete_redundant-some p' l' stack m n)

  finish-above :
      (root n p : Node V) (l k : Str) (stack : Stack V) (r : Removed V)
      → finish root r ((n, l) ∷ (p, k) ∷ stack) ≡ finish root (above l n r) ((p, k) ∷ stack)
  unfolding delete_redundant rebuild
  finish-above root n p l k stack missing = refl
  finish-above root n p l k stack (kept c) = refl
  finish-above root n p l k stack dropped = ground arith

  walked-finish :
      (root p : Node V) (k : Str) (ls : List Str) (cur : Node V) (stack : Stack V)
      → walked root (descend ls cur ((p, k) ∷ stack)) ≡ finish root (rem ls cur) ((p, k) ∷ stack)
  unfolding descend rem unlink
  walked-finish root p k [] cur stack =
      ground (
        arith,
        delete_redundant-some p k stack root (rebuild (set_leaf false cur) ((p, k) ∷ stack)),
      )
  walked-finish root p k (l ∷ ls) cur stack = elim (Option-cases (find_child l (childs cur))) [
    | inl e ↦ rw (e, descend, rem) refl
    | inr (c, e) ↦
        rw (e, descend, rem)
          (walked-finish root cur l ls c ((p, k) ∷ stack)
            ∙ finish-above root cur p l k stack (rem ls c))
  ]

  finish-at_root :
      (root : Node V) (l : Str) (r : Removed V) → finish root r ((root, l) ∷ []) ≡ at_root l root r
  unfolding delete_redundant rebuild
  finish-at_root root l missing = refl
  finish-at_root root l (kept c) = refl
  finish-at_root root l dropped = ground arith

  remove_path-walked :
      (p : List Str) (root : Node V) → remove_path p root ≡ walked root (descend p root [])
  unfolding remove_path
  remove_path-walked p root = elim (Option-cases (descend p root [])) [
    | inl e ↦ rw (e, remove_path) refl
    | inr (cs, e) ↦ rw (e, remove_path) refl
  ]

  walked-remove_rec :
      (l : Str) (ls : List Str) (root : Node V)
      → walked root (descend (l ∷ ls) root []) ≡ remove_rec (l ∷ ls) root
  unfolding descend
  walked-remove_rec l ls root = elim (Option-cases (find_child l (childs root))) [
    | inl e ↦ rw (e, descend, remove_rec) refl
    | inr (c, e) ↦
        rw (e, descend, remove_rec)
          (walked-finish root root l ls c [] ∙ finish-at_root root l (rem ls c))
  ]

  -- For every path but the empty one, which no key has, the walk down with an explicit stack and
  -- the loop back up that deletes the redundant ancestors answer what the recursive removal does:
  -- the same trie, and the same report of whether the key was there.
  pub remove_path-remove_rec :
      (l : Str) (ls : List Str) (root : Node V)
      → remove_path (l ∷ ls) root ≡ remove_rec (l ∷ ls) root
  remove_path-remove_rec l ls root = remove_path-walked (l ∷ ls) root ∙ walked-remove_rec l ls root
