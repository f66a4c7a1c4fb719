-- ===== src/Client/Gives.antt =====
-- Steps of the client (src/common/client.cpp) that return, and what they return, by their shape.
use kvik.Base.{◌≡◌, refl, Bool, true, false, Option, none, some, if◌then◌else◌, subst, sym}
use kvik.Client.State.{Client, M, ◌>>=◌}

-- Something is returned, and it has the property.
abbrev pub Gives : {A : Type 0} → (A → Client → Type 0) → Option (A × Client) → Type 0
Gives {A} P o = (r : A × Client) × (o ≡ some r) × P r.0 r.1

pub some-Gives :
    {A : Type 0} (P : A → Client → Type 0) (a : A) (c : Client) → P a c → Gives P (some (a, c))
some-Gives P a c h = ((a, c), refl, h)

pub if-Gives :
    {A : Type 0} (P : A → Client → Type 0) (b : Bool) (o r : Option (A × Client))
    → (b ≡ true → Gives P o)
    → (b ≡ false → Gives P r)
    → Gives P (if b then o else r)
if-Gives P true o r p q = p refl
if-Gives P false o r p q = q refl

pub if-M-Gives :
    {A : Type 0} (P : A → Client → Type 0) (b : Bool) (m k : M A) (c : Client)
    → (b ≡ true → Gives P (m c))
    → (b ≡ false → Gives P (k c))
    → Gives P ((if b then m else k) c)
if-M-Gives P true m k c p q = p refl
if-M-Gives P false m k c p q = q refl

pub case-Gives :
    {A B : Type 0} (P : A → Client → Type 0) (x : Option B) (o : Option (A × Client))
    (r : B → Option (A × Client))
    → (x ≡ none → Gives P o)
    → ((y : B) → x ≡ some y → Gives P (r y))
    → Gives P (elim x [ none ↦ o | some y ↦ r y ])
case-Gives P none o r p q = p refl
case-Gives P (some y) o r p q = q y refl

pub >>=-Gives :
    {A B : Type 0} (P : A → Client → Type 0) (Q : B → Client → Type 0) (m : M A) (f : A → M B)
    (c : Client)
    → Gives P (m c)
    → ((a : A) (d : Client) → P a d → Gives Q (f a d))
    → Gives Q ((m >>= f) c)
>>=-Gives P Q m f c (r, e, p) q =
    subst (λ o. Gives Q (elim o [ none ↦ none | some (a, d) ↦ f a d ])) (sym e) (q r.0 r.1 p)
