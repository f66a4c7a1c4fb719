-- ===== src/Trie/Search.antt =====
-- Breadth-first searches in general, as `find` and `forEach` of include/kvik/wildcard_trie.hpp are.
use kvik.Base.{
  ℕ, zero, suc, ◌+◌, ◌<◌, ◌≡◌, refl, ◌⊎◌, inl, inr, ◌↔◌, List, [], ◌∷◌, ◌++◌, Option, none, some,
  arith, In, In-append, All, iff_trans, iff_refl, iff_sym, sum_iff, sum_swap, sum_assoc,
}

module _ {A : Type 0} where
  unfoldable pub total : (A → ℕ) → List A → ℕ
  total weight [] = 0
  total weight (x ∷ xs) = weight x + total weight xs

  total-append :
      (weight : A → ℕ) (xs ys : List A)
      → total weight (xs ++ ys) ≡ total weight xs + total weight ys
  unfolding total
  total-append weight [] ys = omega arith
  total-append weight (x ∷ xs) ys = omega (arith, total-append weight xs ys)

  All-append : (P : A → Type 0) (xs ys : List A) → All P xs → All P ys → All P (xs ++ ys)
  All-append P [] ys h k = k
  All-append P (x ∷ xs) ys h k = (h.0, All-append P xs ys h.1 k)

module _ {A B : Type 0} where
  -- All that the items report, by a description `found` of one item.
  abbrev pub gather : (A → List B) → List A → List B
  gather found [] = []
  gather found (x ∷ xs) = found x ++ gather found xs

  pub In-gather-append :
      (found : A → List B) (b : B) (xs ys : List A)
      → In b (gather found (xs ++ ys)) ↔ (In b (gather found xs) ⊎ In b (gather found ys))
  In-gather-append found b [] ys = (inr, λ s. elim s [ inl e ↦ absurd e | inr m ↦ m ])
  In-gather-append found b (x ∷ xs) ys =
      iff_trans (In-append b (found x) (gather found (xs ++ ys))) (
        iff_trans (sum_iff iff_refl (In-gather-append found b xs ys)) (
          iff_trans (iff_sym sum_assoc)
            (sum_iff (iff_sym (In-append b (found x) (gather found xs))) iff_refl)))

  module _ (hits : A → List B) (kids : A → List A) where
    unfoldable pub bfs : ℕ → List A → Option (List B)
    bfs zero queue = none
    bfs (suc fuel) [] = some []
    bfs (suc fuel) (x ∷ queue) = elim (bfs fuel (queue ++ kids x)) [
      | none ↦ none
      | some bs ↦ some (hits x ++ bs)
    ]

    module _ (P : A → Type 0) (weight : A → ℕ) (found : A → List B)
        (kept : (x : A) → P x → All P (kids x)) (falls : (x : A) → total weight (kids x) < weight x)
        (unfold_found : (x : A)
          → P x
          → (b : B) → In b (found x) ↔ (In b (hits x) ⊎ In b (gather found (kids x)))) where
      pub bfs-total :
          (fuel : ℕ) (queue : List A)
          → All P queue
          → total weight queue < fuel
          → (bs : List B) × (bfs fuel queue ≡ some bs)
            × ((b : B) → In b bs ↔ In b (gather found queue))
      unfolding bfs total
      bfs-total zero queue p h = absurd (omega arith)
      bfs-total (suc fuel) [] p h = ([], refl, λ b. (λ m. m, λ m. m))
      bfs-total (suc fuel) (x ∷ queue) p h =
          let (bs, e, same) =
            bfs-total fuel (queue ++ kids x) (All-append P queue (kids x) p.1 (kept x p.0))
              (omega (arith, falls x, total-append weight queue (kids x))) in
          (
            hits x ++ bs,
            rw (e, bfs),
            λ b. iff_trans (In-append b (hits x) bs) (
                iff_trans (sum_iff iff_refl (same b)) (
                  iff_trans (sum_iff iff_refl (In-gather-append found b queue (kids x))) (
                    iff_trans sum_swap (
                      iff_trans (sum_iff (iff_sym (unfold_found x p.0 b)) iff_refl)
                        (iff_sym (In-append b (found x) (gather found queue))))))),
          )
