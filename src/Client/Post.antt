-- ===== src/Client/Post.antt =====
-- Properties of whatever a step of the client returns, by the shape of the step.
use kvik.Base.{
  Option-cases, inl, inr, ◌≡◌, refl, Bool, true, false, Option, none, some, if◌then◌else◌, subst,
}
use kvik.Message.{ErrCode, failed, LocalMsg}
use kvik.Client.State.{Client, Effect, M, ◌>>=◌, ◌>>◌, pure, emit, add_pending}
use kvik.Client.Receive.{Posted, refused, posted}

-- Whatever is returned has the property.
abbrev pub Post : {A : Type 0} → (A → Client → Type 0) → Option (A × Client) → Type 0
Post {A} P o = (a : A) (c' : Client) → o ≡ some (a, c') → P a c'

pub some-Post :
    {A : Type 0} (P : A → Client → Type 0) (a : A) (d : Client) → P a d → Post P (some (a, d))
some-Post P a d p b c' h =
    let e : a ≡ b = cc in let f : d ≡ c' = cc in subst (P b) f (subst (λ x. P x d) e p)

pub none-Post : {A : Type 0} (P : A → Client → Type 0) → Post P none
none-Post P a c' h = absurd (cc)

pub if-Post :
    {A : Type 0} {P : A → Client → Type 0} (b : Bool) (o r : Option (A × Client))
    → (b ≡ true → Post P o)
    → (b ≡ false → Post P r)
    → Post P (if b then o else r)
if-Post true o r p q = p refl
if-Post false o r p q = q refl

pub if-M-Post :
    {A : Type 0} {P : A → Client → Type 0} (b : Bool) (m k : M A) (d : Client)
    → (b ≡ true → Post P (m d))
    → (b ≡ false → Post P (k d))
    → Post P ((if b then m else k) d)
if-M-Post true m k d p q = p refl
if-M-Post false m k d p q = q refl

pub case-Post :
    {A B : Type 0} {P : A → Client → Type 0} (x : Option B) (o : Option (A × Client))
    (r : B → Option (A × Client))
    → (x ≡ none → Post P o)
    → ((y : B) → x ≡ some y → Post P (r y))
    → Post P (elim x [ none ↦ o | some y ↦ r y ])
case-Post none o r p q = p refl
case-Post (some y) o r p q = q y refl

pub >>=-Post :
    {A B : Type 0} {P : A → Client → Type 0} {Q : B → Client → Type 0} (m : M A) (f : A → M B)
    (c : Client)
    → Post P (m c)
    → ((a : A) (d : Client) → P a d → Post Q (f a d))
    → Post Q ((m >>= f) c)
>>=-Post {A = A} {B = B} {P = P} {Q = Q} m f c p q = go (m c) p
  where
    go :
        (o : Option (A × Client)) → Post P o → Post Q (elim o [ none ↦ none | some (a, d) ↦ f a d ])
    go none p = none-Post Q
    go (some (a, d)) p = q a d (p a d refl)

-- Inversion of a step that returns.
pub >>=-eq-some :
    {A B : Type 0} (m : M A) (f : A → M B) (c : Client) (r : B × Client)
    → (m >>= f) c ≡ some r
    → (a : A) × (d : Client) × (m c ≡ some (a, d)) × (f a d ≡ some r)
>>=-eq-some m f c r h = elim (Option-cases (m c)) [
  | inl e ↦ absurd (none-ne r (rw (e, ◌>>=◌) at h))
  | inr (ad, e) ↦ (ad.0, ad.1, e, rw (e, ◌>>=◌) at h)
]
  where
    none-ne : {B : Type 0} (r : B) → ¬ (none ≡ some r)
    none-ne r h' = cc

-- The part of `sendLocalUnchecked` and of the broadcast that adds the message and sends it.
abbrev pub queue : Bool → ErrCode → LocalMsg → M Posted
queue b sent q = do
  add_pending q b
  emit (Effect.sends q)
  pure (if failed sent then refused sent else posted q.id)
