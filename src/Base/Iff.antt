-- ===== src/Base/Iff.antt =====
-- Equivalences of statements.
use mathlib.Core.Logic.{◌↔◌, ◌⊎◌, inl, inr}

module _ {A B C : Type 0} where
  pub iff_trans : A ↔ B → B ↔ C → A ↔ C
  iff_trans p q = (λ a. q.0 (p.0 a), λ c. p.1 (q.1 c))

  pub sum_swap : (A ⊎ (B ⊎ C)) ↔ ((A ⊎ C) ⊎ B)
  sum_swap = (
    λ s. elim s [ inl a ↦ inl (inl a) | inr t ↦ elim t [ inl b ↦ inr b | inr c ↦ inl (inr c) ] ],
    λ s. elim s [ inl t ↦ elim t [ inl a ↦ inl a | inr c ↦ inr (inr c) ] | inr b ↦ inr (inl b) ],
  )

  pub sum_assoc : ((A ⊎ B) ⊎ C) ↔ (A ⊎ (B ⊎ C))
  sum_assoc = (
    λ s. elim s [ inl t ↦ elim t [ inl a ↦ inl a | inr b ↦ inr (inl b) ] | inr c ↦ inr (inr c) ],
    λ s. elim s [ inl a ↦ inl (inl a) | inr t ↦ elim t [ inl b ↦ inl (inr b) | inr c ↦ inr c ] ],
  )

module _ {A B C D : Type 0} where
  pub sum_iff : A ↔ B → C ↔ D → (A ⊎ C) ↔ (B ⊎ D)
  sum_iff p q = (
    λ s. elim s [ inl a ↦ inl (p.0 a) | inr c ↦ inr (q.0 c) ],
    λ s. elim s [ inl b ↦ inl (p.1 b) | inr d ↦ inr (q.1 d) ],
  )

  pub sum_cross : ((A ⊎ B) ⊎ (C ⊎ D)) ↔ ((A ⊎ C) ⊎ (B ⊎ D))
  sum_cross = (
    λ s. elim s [
      | inl t ↦ elim t [ inl a ↦ inl (inl a) | inr b ↦ inr (inl b) ]
      | inr t ↦ elim t [ inl c ↦ inl (inr c) | inr d ↦ inr (inr d) ]
    ],
    λ s. elim s [
      | inl t ↦ elim t [ inl a ↦ inl (inl a) | inr c ↦ inr (inl c) ]
      | inr t ↦ elim t [ inl b ↦ inl (inr b) | inr d ↦ inr (inr d) ]
    ],
  )

pub iff_refl {ℓ} : {A : Type ℓ} → A ↔ A
iff_refl = (λ a. a, λ a. a)

pub iff_sym {ℓ} : {A B : Type ℓ} → A ↔ B → B ↔ A
iff_sym p = (p.1, p.0)
