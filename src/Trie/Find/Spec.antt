-- ===== src/Trie/Find/Spec.antt =====
-- What `find` (include/kvik/wildcard_trie.hpp) answers, in terms of the contents of the trie.
use kvik.Base.{
  suc, ◌≡◌, refl, ◌⊎◌, inl, inr, true, List, [], ◌∷◌, some, if_pos, if_neg, Str, str_dec, In, ap,
  sym,
}
use kvik.Trie.Split.{split_to_levels}
use kvik.Trie.Ops.{Trie}
use kvik.Trie.Insert.{lookup, IsTrie}
use kvik.Trie.Find.{or_no_values, put_new, find, find_loop, node_count, Values}
use kvik.Trie.Find.Matches.{matches, path_key}
use kvik.Trie.Find.Dfs.{dfs_iff}
use kvik.Trie.Find.Loop.{put_all, find_loop-described}

module _ {V : Type 0} where
  put_new-In :
      (k : Str) (v : V) (m : Values V) (b : Str × V) → In b (put_new k v m) → (b ≡ (k, v)) ⊎ In b m
  unfolding put_new
  put_new-In k v [] b h = h
  put_new-In k v ((j, w) ∷ m) b h = elim (str_dec j k) [
    | yes e ↦ inr (rw (if_pos _ e) at h)
    | no e ↦ elim (rw (if_neg _ e) at h) [
      | inl x ↦ inr (inl x)
      | inr x ↦ elim (put_new-In k v m b x) [ inl y ↦ inl y | inr y ↦ inr (inr y) ]
    ]
  ]

  -- The key is there, with some value.
  abbrev HasKey : Str → Values V → Type 0
  HasKey k m = (w : V) × In (k, w) m

  put_new-HasKey : (k : Str) (v : V) (m : Values V) → HasKey k (put_new k v m)
  unfolding put_new
  put_new-HasKey k v [] = (v, inl refl)
  put_new-HasKey k v ((j, w) ∷ m) = elim (str_dec j k) [
    | yes e ↦ (w, rw (if_pos _ e) (inl (ap (λ x. (x, w)) (sym e))))
    | no e ↦ let (u, h) = put_new-HasKey k v m in (u, rw (if_neg _ e) (inr h))
  ]

  put_new-keeps : (k : Str) (v : V) (m : Values V) (b : Str × V) → In b m → In b (put_new k v m)
  unfolding put_new
  put_new-keeps k v [] b h = absurd h
  put_new-keeps k v ((j, w) ∷ m) b h = elim (str_dec j k) [
    | yes e ↦ rw (if_pos _ e) h
    | no e ↦ rw (if_neg _ e) (elim h [ inl x ↦ inl x | inr x ↦ inr (put_new-keeps k v m b x) ])
  ]

  module _ (t : Trie V) where
    put_all-In : (h m : Values V) (b : Str × V) → In b (put_all t h m) → In b h ⊎ In b m
    put_all-In [] m b i = inr i
    put_all-In ((k, v) ∷ h) m b i = elim (put_all-In h (put_new k v m) b i) [
      | inl x ↦ inl (inr x)
      | inr x ↦ elim (put_new-In k v m b x) [ inl y ↦ inl (inl y) | inr y ↦ inr y ]
    ]

    put_all-keeps : (h m : Values V) (b : Str × V) → In b m → In b (put_all t h m)
    put_all-keeps [] m b i = i
    put_all-keeps ((k, v) ∷ h) m b i = put_all-keeps h (put_new k v m) b (put_new-keeps k v m b i)

    put_all-HasKey : (h m : Values V) (k : Str) (v : V) → In (k, v) h → HasKey k (put_all t h m)
    put_all-HasKey [] m k v i = absurd i
    put_all-HasKey ((j, w) ∷ h) m k v (inl e) =
        let (u, there) = put_new-HasKey j w m in
        (u, rw (ap (λ x. x.0) e) (put_all-keeps h (put_new j w m) (j, u) there))
    put_all-HasKey ((j, w) ∷ h) m k v (inr i) = put_all-HasKey h (put_new j w m) k v i

  -- The entries of a trie whose paths match a topic.
  abbrev pub Subscribed : Trie V → Str → Str → V → Type 0
  Subscribed t topic k v =
      (p : List Str) × (lookup t p ≡ some v)
      × (matches t.l_single_wild t.l_multi_wild p (split_to_levels t.l_sep topic) ≡ true)
      × (k ≡ path_key t.l_sep [] p)

  -- On a trie, the loop of `find` ends. Each entry of its answer comes from a stored key whose
  -- levels match those of the topic, under the key that is rebuilt from its levels and with its
  -- value; and each stored key that matches has an entry under its rebuilt key.
  pub find-Subscribed :
      (t : Trie V) (topic : Str)
      → IsTrie t
      → (find_loop
            (suc (node_count t.root))
            t
            (split_to_levels t.l_sep topic)
            (([], t.root) ∷ [])
            []
          ≡ some (find t topic))
        × ((k : Str) (v : V) → In (k, v) (find t topic) → Subscribed t topic k v)
        × ((k : Str) (v : V) → Subscribed t topic k v → (w : V) × In (k, w) (find t topic))
  unfolding find
  find-Subscribed t topic wf =
      let (bs, ended, same) =
        find_loop-described t (split_to_levels t.l_sep topic) t.root wf.shape in
      let iff = λ (k : Str) (v : V).
        dfs_iff t.l_sep t.l_single_wild t.l_multi_wild 0 [] (split_to_levels t.l_sep topic) t.root k
          v wf.shape in
      rw (ended, or_no_values)
        (
          refl,
          λ k v m. elim (put_all-In t bs [] (k, v) m) [
            | inl x ↦ (iff k v).0 ((same (k, v)).0 x)
            | inr x ↦ absurd x
          ],
          λ k v s. put_all-HasKey t bs [] k v ((same (k, v)).1 ((iff k v).1 s)),
        )
