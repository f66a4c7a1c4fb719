-- ===== src/Client/Binding/Dangling.antt =====
-- When the callback of a layer calls a client that does not exist (src/common/client.cpp,
-- include/kvik/layers.hpp).
use kvik.Base.{
  ℕ, ◌≡◌, refl, ◌∙◌, ◌↔◌, ◌+◌, ◌<◌, Bool, true, false, List, [], ◌∷◌, Option, none, some, All,
  if◌then◌else◌, ◌==◌, arith, Bool-cases, inl, inr, ◌⊎◌,
}
use kvik.Layers.{set_local_recv_cb}
use kvik.Peer.{LocalPeer}
use kvik.Client.Binding.{
  Construction, lives, Clients, Event, constructs, destroys, receives, exists, delete, next, run,
  unused,
}
use kvik.Client.Binding.Late.{FailsLate, makes, makes-cases, fails_late_lem}

-- Every client that exists has been numbered.
abbrev Numbered : Clients → Type 0
Numbered s = All (λ i. i < s.next_client) s.existing

abbrev is_bound : Option ℕ → List ℕ → Bool
is_bound none js = true
is_bound (some i) js = exists i js

-- The callback is bound to a client that exists, or to none.
abbrev bound : Clients → Bool
bound s = is_bound s.layer.recv_cb s.existing

later-All : (n : ℕ) (is : List ℕ) → All (λ i. i < n) is → All (λ i. i < n + 1) is
later-All n [] h = tt
later-All n (i ∷ is) h = (omega (arith, h.0), later-All n is h.1)

delete-All : (i n : ℕ) (js : List ℕ) → All (λ j. j < n) js → All (λ j. j < n) (delete i js)
unfolding delete
delete-All i n [] h = tt
delete-All i n (j ∷ js) h = elim (Bool-cases (j == i)) [
  | inl e ↦ rw e (delete-All i n js h.1)
  | inr e ↦ rw e (h.0, delete-All i n js h.1)
]

exists-fresh : (n : ℕ) (js : List ℕ) → All (λ j. j < n) js → exists n js ≡ false
unfolding exists
exists-fresh n [] h = refl
exists-fresh n (j ∷ js) h = let rest = exists-fresh n js h.1 in let less = h.0 in ground arith

exists-here : (n : ℕ) (js : List ℕ) → exists n (n ∷ js) ≡ true
unfolding exists
exists-here n js = ground arith

exists-there : (i n : ℕ) (js : List ℕ) → exists i js ≡ true → exists i (n ∷ js) ≡ true
unfolding exists
exists-there i n js h = ground arith

-- One more client exists.
is_bound-more :
    (cb : Option ℕ) (b : Bool) (n : ℕ) (js : List ℕ)
    → is_bound cb js ≡ true
    → is_bound cb (if b then n ∷ js else js) ≡ true
is_bound-more none b n js h = refl
is_bound-more (some i) true n js h = exists-there i n js h
is_bound-more (some i) false n js h = h

received :
    (cb : Option ℕ) (s : Clients)
    → s.layer.recv_cb ≡ cb
    → (elim cb [ none ↦ some s | some i ↦ if exists i s.existing then some s else none ])
      ≡ (if is_bound cb s.existing then some s else none)
received none s e = refl
received (some i) s e = refl

only : (o : Option Clients) → (elim o [ none ↦ none | some t ↦ some t ]) ≡ o
only none = refl
only (some t) = refl

module _ (same_peer : LocalPeer → LocalPeer → Bool) where
  -- No constructor fails late.
  abbrev pub Clean : Event → Type 0
  Clean (constructs k) = ¬ FailsLate same_peer k
  Clean _ = Unit {0}

  abbrev Tidy : Clients → Type 0
  Tidy s = (bound s ≡ true) × Numbered s

  abbrev after : Construction → Clients → Clients
  after k s = record {
    layer = (makes same_peer k s.next_client s.layer).0;
    existing =
        if lives (makes same_peer k s.next_client s.layer).1
        then s.next_client ∷ s.existing
        else s.existing;
    next_client = s.next_client + 1;
  }

  after-Numbered : (k : Construction) (s : Clients) → Numbered s → Numbered (after k s)
  after-Numbered k s h = elim (Bool-cases (lives (makes same_peer k s.next_client s.layer).1)) [
    | inl e ↦ rw e (omega arith, later-All s.next_client s.existing h)
    | inr e ↦ rw e (later-All s.next_client s.existing h)
  ]

  -- The callback is left dangling by a constructor that fails late, and by no other.
  after-bound :
      (k : Construction) (s : Clients) → Tidy s → (bound (after k s) ≡ true) ⊎ FailsLate same_peer k
  unfolding set_local_recv_cb
  after-bound k s (b, h) = elim (makes-cases same_peer k s.next_client s.layer) [
    | inl e ↦ inl (
        rw e (
          is_bound-more s.layer.recv_cb (lives (makes same_peer k s.next_client s.layer).1)
            s.next_client s.existing b))
    | inr (inl (e, l)) ↦ inl (rw (e, l) (exists-here s.next_client s.existing))
    | inr (inr (e, f)) ↦ inr f
  ]

  late-bound :
      (k : Construction) (s : Clients) → Tidy s → FailsLate same_peer k → bound (after k s) ≡ false
  unfolding set_local_recv_cb
  late-bound k s (b, h) f =
      let (e, l) = fails_late_lem same_peer k s.next_client s.layer f in
      rw (e, l) (exists-fresh s.next_client s.existing h)

  receives-eq : (s : Clients) → next same_peer receives s ≡ (if bound s then some s else none)
  unfolding next
  receives-eq s = received s.layer.recv_cb s refl

  next-Tidy :
      (e : Event) (s : Clients)
      → Clean e
      → Tidy s
      → (t : Clients) × (next same_peer e s ≡ some t) × Tidy t
  unfolding next set_local_recv_cb
  next-Tidy (constructs k) s c h =
      let b : bound (after k s) ≡ true = elim (after-bound k s h) [
        | inl b ↦ b
        | inr f ↦ absurd (c f)
      ] in
      (after k s, refl, (b, after-Numbered k s h.1))
  next-Tidy (destroys i) s c (b, h) = (_, refl, (refl, delete-All i s.next_client s.existing h))
  next-Tidy receives s c (b, h) = (s, receives-eq s ∙ rw b refl, (b, h))

  run-Tidy :
      (events : List Event) (s : Clients)
      → All Clean events
      → Tidy s
      → (t : Clients) × (run same_peer events s ≡ some t) × Tidy t
  unfolding run
  run-Tidy [] s c h = (s, refl, h)
  run-Tidy (e ∷ events) s c h =
      let (t, one, tidy) = next-Tidy e s c.0 h in
      let (u, rest, last) = run-Tidy events t c.1 tidy in (u, rw (one, run) rest, last)

  -- A construction and a message after it.
  next_two-eq :
      (k : Construction) (s : Clients)
      → run same_peer (constructs k ∷ receives ∷ []) s
        ≡ (if bound (after k s) then some (after k s) else none)
  unfolding run next
  next_two-eq k s = only (next same_peer receives (after k s)) ∙ receives-eq (after k s)

  next_two-none :
      (k : Construction) (s : Clients)
      → Tidy s
      → (run same_peer (constructs k ∷ receives ∷ []) s ≡ none) ↔ FailsLate same_peer k
  next_two-none k s h =
      let e = next_two-eq k s in
      (
        λ n. elim (after-bound k s h) [
          | inl b ↦ let g = rw b at e in absurd (cc (n, g))
          | inr f ↦ f
        ],
        λ f. let b = late-bound k s h f in e ∙ rw b refl,
      )

  -- A constructor fails late where it has a layer, its node and its database are constructed, and
  -- then, from a client without a gateway, the discovery throws or returns a failure; or, with
  -- retained data, the synchronisation throws, or does not succeed and the discovery after it fails.
  -- After any constructions, destructions and messages in which no constructor fails late, no
  -- message has been given to a client that does not exist; and the next construction and a message
  -- after it do that exactly if this constructor fails late.
  pub run-Bound :
      (events : List Event)
      → All Clean events
      → (s : Clients) × (run same_peer events unused ≡ some s)
        × ((k : Construction)
            → (run same_peer (constructs k ∷ receives ∷ []) s ≡ none) ↔ FailsLate same_peer k)
  run-Bound events c =
      let (s, e, tidy) = run-Tidy events unused c (refl, tt) in (s, e, λ k. next_two-none k s tidy)
