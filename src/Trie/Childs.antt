-- ===== src/Trie/Childs.antt =====
-- The laws of the map of children (include/kvik/wildcard_trie.hpp).
use kvik.Base.{
  ℕ, ◌≡◌, refl, sym, subst, true, Option, none, some, ite, if_pos, if_neg, Str, str_dec, arith,
}
use kvik.Trie.Nodes.{
  Node, Childs, nil, entry, find_child, erase_child, set_child, upsert, is_live, IsWf, AreWf,
}

module _ {ℓ} {V : Type ℓ} where
  abbrev pub or_fresh : Node V → Option (Node V) → Node V
  or_fresh fresh none = fresh
  or_fresh fresh (some n) = n

  pub find_child-upsert :
      (l k : Str) (g : Node V → Node V) (fresh : Node V) (cs : Childs V)
      → find_child k (upsert l g fresh cs)
        ≡ ite (str_dec l k) (some (g (or_fresh fresh (find_child l cs)))) (find_child k cs)
  unfolding find_child upsert
  find_child-upsert l k g fresh nil = refl
  find_child-upsert l k g fresh (entry j n cs) = ground (arith, find_child-upsert l k g fresh cs)

  pub find_child-set_child :
      (l k : Str) (m : Node V) {n : Node V} (cs : Childs V)
      → find_child l cs ≡ some n
      → find_child k (set_child l m cs) ≡ ite (str_dec l k) (some m) (find_child k cs)
  unfolding find_child set_child
  find_child-set_child l k m {n = x} nil h = cc
  find_child-set_child l k m {n = x} (entry j n cs) h =
      ground (arith, find_child-set_child l k m {n = x} cs)

  pub find_child-erase_child :
      (d : ℕ) (l k : Str) (cs : Childs V)
      → AreWf d cs
      → find_child k (erase_child l cs) ≡ ite (str_dec l k) none (find_child k cs)
  unfolding find_child erase_child
  find_child-erase_child d l k nil w = ground arith
  find_child-erase_child d l k (entry j n cs) (w, a, u, ws) =
      ground (arith, find_child-erase_child d l k cs ws)

  find_child-none-set_child :
      (l k : Str) (m : Node V) (cs : Childs V)
      → find_child k cs ≡ none
      → find_child k (set_child l m cs) ≡ none
  unfolding find_child set_child
  find_child-none-set_child l k m nil h = refl
  find_child-none-set_child l k m (entry j n cs) h =
      ground (arith, find_child-none-set_child l k m cs)

  find_child-none-erase_child :
      (l k : Str) (cs : Childs V) → find_child k cs ≡ none → find_child k (erase_child l cs) ≡ none
  unfolding find_child erase_child
  find_child-none-erase_child l k nil h = refl
  find_child-none-erase_child l k (entry j n cs) h =
      ground (arith, find_child-none-erase_child l k cs)

  -- A child that is found has the shape, and is live.
  pub found-IsWf :
      (d : ℕ) (l : Str) {n : Node V} (cs : Childs V)
      → AreWf d cs
      → find_child l cs ≡ some n
      → IsWf d n × (is_live n ≡ true)
  unfolding find_child
  found-IsWf d l nil ws h = cc
  found-IsWf d l {n} (entry k m cs) (w, a, u, ws) h = elim (str_dec k l) [
    | yes p ↦ let e : m ≡ n = ground arith in subst (λ x. IsWf d x × (is_live x ≡ true)) e (w, a)
    | no p ↦ found-IsWf d l cs ws (ground arith)
  ]

  pub upsert-AreWf :
      (d : ℕ) (l : Str) (g : Node V → Node V) (fresh : Node V) (cs : Childs V)
      → AreWf d cs
      → IsWf d (g (or_fresh fresh (find_child l cs)))
      → is_live (g (or_fresh fresh (find_child l cs))) ≡ true
      → AreWf d (upsert l g fresh cs)
  unfolding find_child upsert
  upsert-AreWf d l g fresh nil ws w a = (w, a, refl, tt)
  upsert-AreWf d l g fresh (entry k n cs) (wn, an, u, ws) w a = elim (str_dec k l) [
    | yes p ↦ rw (if_pos _ p) (rw (if_pos _ p) at w, rw (if_pos _ p) at a, u, ws)
    | no p ↦ rw (if_neg _ p) (
      wn,
      an,
      rw (find_child-upsert l k g fresh cs, if_neg _ (λ e. p (sym e))) u,
      upsert-AreWf d l g fresh cs ws (rw (if_neg _ p) at w) (rw (if_neg _ p) at a),
    )
  ]

  pub set_child-AreWf :
      (d : ℕ) (l : Str) (m : Node V) (cs : Childs V)
      → AreWf d cs
      → IsWf d m
      → is_live m ≡ true
      → AreWf d (set_child l m cs)
  unfolding find_child set_child
  set_child-AreWf d l m nil ws w a = tt
  set_child-AreWf d l m (entry k n cs) (wn, an, u, ws) w a = elim (str_dec k l) [
    | yes p ↦ rw (if_pos _ p) (w, a, u, ws)
    | no p ↦
        rw (if_neg _ p)
          (wn, an, find_child-none-set_child l k m cs u, set_child-AreWf d l m cs ws w a)
  ]

  pub erase_child-AreWf :
      (d : ℕ) (l : Str) (cs : Childs V) → AreWf d cs → AreWf d (erase_child l cs)
  unfolding find_child erase_child
  erase_child-AreWf d l nil ws = tt
  erase_child-AreWf d l (entry k n cs) (wn, an, u, ws) = elim (str_dec k l) [
    | yes p ↦ rw (if_pos _ p) ws
    | no p ↦
        rw (if_neg _ p) (wn, an, find_child-none-erase_child l k cs u, erase_child-AreWf d l cs ws)
  ]
