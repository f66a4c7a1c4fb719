-- ===== src/Client/Calls.antt =====
-- The calls of callbacks that `recvLocalSubData` (src/common/client.cpp) makes, as a list.
use kvik.Base.{
  ◌≡◌, refl, sym, ◌∙◌, ◌↔◌, inl, inr, List, [], ◌∷◌, ◌++◌, append_assoc, append-nil, some, Str, In,
  In-append,
}
use kvik.Message.{SubData, SubCb}
use kvik.Trie.Ops.{Trie}
use kvik.Trie.Find.{find, Values}
use kvik.Client.State.{Client, Effect, M, ◌>>=◌, ◌>>◌}
use kvik.Client.Receive.{call_back, call_all}

unfoldable pub calls : SubData → Values SubCb → List Effect
calls d [] = []
calls d ((k, cb) ∷ vs) = Effect.calls_back cb d ∷ calls d vs

unfoldable pub all_calls : Trie SubCb → List SubData → List Effect
all_calls t [] = []
all_calls t (d ∷ ds) = calls d (find t d.topic) ++ all_calls t ds

pub call_back-calls :
    (d : SubData) (vs : Values SubCb) (c : Client)
    → call_back d vs c ≡ some (tt, record c { effects = c.effects ++ calls d vs })
unfolding call_back calls
call_back-calls d [] c = simp (append-nil)
call_back-calls d ((k, cb) ∷ vs) c =
    call_back-calls d vs (record c { effects = c.effects ++ Effect.calls_back cb d ∷ [] })
    ∙ simp (append_assoc)

pub >>-runs :
    {B : Type 0} (m : M (Unit {0})) (k : M B) (c d : Client) → m c ≡ some (tt, d) → (m >> k) c ≡ k d
>>-runs m k c d e = rw (e, ◌>>=◌) refl

pub call_all-calls :
    (ds : List SubData) (c : Client)
    → call_all ds c ≡ some (tt, record c { effects = c.effects ++ all_calls c.sub_db ds })
unfolding call_all all_calls
call_all-calls [] c = simp (append-nil)
call_all-calls (d ∷ ds) c =
    >>-runs (λ c. call_back d (find c.sub_db d.topic) c) (call_all ds) c _
      (call_back-calls d (find c.sub_db d.topic) c)
    ∙ (call_all-calls ds (record c { effects = c.effects ++ calls d (find c.sub_db d.topic) })
        ∙ simp (append_assoc))

-- The calls for one datum are those of the values that are found.
pub calls-In :
    (d : SubData) (vs : Values SubCb) (cb : SubCb) (e : SubData)
    → In (Effect.calls_back cb e) (calls d vs) ↔ ((e ≡ d) × (k : Str) × In (k, cb) vs)
unfolding calls
calls-In d [] cb e = (λ h. absurd h, λ (same, k, m). absurd m)
calls-In d ((k, w) ∷ vs) cb e = (
  λ h. elim h [
    | inl p ↦ (cc, k, inl (cc))
    | inr m ↦ let (s, j, i) = (calls-In d vs cb e).0 m in (s, j, inr i)
  ],
  λ (same, j, m). elim m [ inl p ↦ inl (cc) | inr i ↦ inr ((calls-In d vs cb e).1 (same, j, i)) ],
)

pub all_calls-In :
    (t : Trie SubCb) (ds : List SubData) (cb : SubCb) (d : SubData)
    → In (Effect.calls_back cb d) (all_calls t ds)
      ↔ (In d ds × (k : Str) × In (k, cb) (find t d.topic))
unfolding all_calls
all_calls-In t [] cb d = (λ h. absurd h, λ (m, k, i). absurd m)
all_calls-In t (x ∷ ds) cb d = (
  λ h. elim ((In-append _ (calls x (find t x.topic)) (all_calls t ds)).0 h) [
    | inl m ↦ let (same, k, i) = (calls-In x (find t x.topic) cb d).0 m in (inl same, k, rw same i)
    | inr m ↦ let (m', k, i) = (all_calls-In t ds cb d).0 m in (inr m', k, i)
  ],
  λ (m, k, i). (In-append _ (calls x (find t x.topic)) (all_calls t ds)).1 (elim m [
    | inl same ↦ inl ((calls-In x (find t x.topic) cb d).1 (same, k, rw (sym same) i))
    | inr m' ↦ inr ((all_calls-In t ds cb d).1 (m', k, i))
  ]),
)
