-- ===== src/Message/Text/Items.antt =====
-- What the texts of messages list (`LocalMsg::toString` of src/common/local_msg.cpp).
use kvik.Base.{
  ℕ, ◌-◌, ◌≡◌, refl, sym, ap, ◌∙◌, Bool, true, false, List, [], ◌∷◌, ◌++◌, Str, codes, take, length,
  length-append, take-append, map, arith, append_assoc, append-nil,
}
use kvik.Message.{LocalMsg, LocalMsgType, PubData, SubData}
use kvik.Message.Text.{
  base_of, erase_last2, add_pubs, add_topics, add_subs_data, msg_to_string, pub_to_string,
  sub_to_string,
}
use kvik.Trie.Split.{join}

-- The items that the loops write, for the types that have any.
abbrev pub items : LocalMsgType → LocalMsg → List Str
items LocalMsgType.pub_sub_unsub m =
    map (λ p. codes "PUB " ++ pub_to_string p) m.pubs
    ++ (map (λ t. codes "SUB " ++ t) m.subs ++ map (λ t. codes "UNSUB " ++ t) m.unsubs)
items LocalMsgType.sub_data m = map (λ d. sub_to_string d) m.subs_data
items _ m = []

abbrev pub has_items : LocalMsgType → Bool
has_items LocalMsgType.pub_sub_unsub = true
has_items LocalMsgType.sub_data = true
has_items _ = false

-- Each item with the separator after it.
abbrev ended : List Str → Str
ended [] = []
ended (i ∷ is) = i ++ (codes ", " ++ ended is)

ended-append : (is js : List Str) → ended (is ++ js) ≡ ended is ++ ended js
ended-append [] js = refl
ended-append (i ∷ is) js = simp (ended-append is js, append_assoc)

add_pubs-ended :
    (ps : List PubData) (base : Str)
    → add_pubs ps base ≡ base ++ ended (map (λ p. codes "PUB " ++ pub_to_string p) ps)
unfolding add_pubs
add_pubs-ended [] base = sym (append-nil base)
add_pubs-ended (p ∷ ps) base = simp (add_pubs-ended ps, append_assoc)

add_topics-ended :
    (prefix : Str) (ts : List Str) (base : Str)
    → add_topics prefix ts base ≡ base ++ ended (map (λ t. prefix ++ t) ts)
unfolding add_topics
add_topics-ended prefix [] base = sym (append-nil base)
add_topics-ended prefix (t ∷ ts) base = simp (add_topics-ended prefix ts, append_assoc)

add_subs_data-ended :
    (ds : List SubData) (base : Str)
    → add_subs_data ds base ≡ base ++ ended (map (λ d. sub_to_string d) ds)
unfolding add_subs_data
add_subs_data-ended [] base = sym (append-nil base)
add_subs_data-ended (d ∷ ds) base = simp (add_subs_data-ended ds, append_assoc)

erase_last2-append : (s : Str) (a b : ℕ) → erase_last2 (s ++ a ∷ b ∷ []) ≡ s
erase_last2-append s a b =
    let n : length (s ++ a ∷ b ∷ []) - 2 ≡ length s = omega (arith, length-append s (a ∷ b ∷ [])) in
    ap (λ k. take k (s ++ a ∷ b ∷ [])) n ∙ take-append s (a ∷ b ∷ [])

ended-join : (i : Str) (is : List Str) → ended (i ∷ is) ≡ join (codes ", ") (i ∷ is) ++ codes ", "
unfolding join
ended-join i [] = refl
ended-join i (j ∷ is) = ap (λ s. i ++ (codes ", " ++ s)) (ended-join j is) ∙ simp append_assoc

-- The text of a message that lists items.
abbrev pub listing : Str → List Str → Str
listing base [] = base ++ codes " "
listing base (i ∷ is) = base ++ (codes " | " ++ join (codes ", ") (i ∷ is))

erase_last2-listing :
    (base : Str) (is : List Str) → erase_last2 ((base ++ codes " | ") ++ ended is) ≡ listing base is
erase_last2-listing base [] =
    ap erase_last2
      (append-nil (base ++ codes " | ") ∙ sym (append_assoc base (codes " ") (codes "| ")))
    ∙ erase_last2-append (base ++ codes " ") 124 32
erase_last2-listing base (i ∷ is) =
    ap (λ s. erase_last2 ((base ++ codes " | ") ++ s)) (ended-join i is)
    ∙ ap erase_last2 (simp append_assoc)
    ∙ erase_last2-append (base ++ (codes " | " ++ join (codes ", ") (i ∷ is))) 44 32

requests-listing :
    (m : LocalMsg) (base : Str)
    → erase_last2 (
        add_topics
          (codes "UNSUB ")
          m.unsubs
          (add_topics (codes "SUB ") m.subs (add_pubs m.pubs (base ++ codes " | "))))
      ≡ listing base (items LocalMsgType.pub_sub_unsub m)
requests-listing m base =
    ap erase_last2 (simp (add_topics-ended, add_pubs-ended, ended-append, append_assoc))
    ∙ erase_last2-listing base (items LocalMsgType.pub_sub_unsub m)

subs_data-listing :
    (m : LocalMsg) (base : Str)
    → erase_last2 (add_subs_data m.subs_data (base ++ codes " | "))
      ≡ listing base (items LocalMsgType.sub_data m)
subs_data-listing m base =
    ap erase_last2 (add_subs_data-ended m.subs_data (base ++ codes " | "))
    ∙ erase_last2-listing base (items LocalMsgType.sub_data m)

-- The text of a request or of subscription data is the text of its addresses, a bar, and the texts
-- of the items with commas between them, the publications before the subscriptions before the
-- unsubscriptions. Without any item no bar is left, only the space before it.
pub msg_to_string-listing :
    (m : LocalMsg)
    → has_items m.type ≡ true
    → msg_to_string m ≡ listing (base_of m) (items m.type m)
unfolding msg_to_string
msg_to_string-listing m h = by_type m.type refl
  where
    by_type :
        (t : LocalMsgType) → m.type ≡ t → msg_to_string m ≡ listing (base_of m) (items m.type m)
    by_type LocalMsgType.pub_sub_unsub e =
        let same : LocalMsg = record m { type = LocalMsgType.pub_sub_unsub } in
        rw e (requests-listing same (base_of same))
    by_type LocalMsgType.sub_data e =
        let same : LocalMsg = record m { type = LocalMsgType.sub_data } in
        rw e (subs_data-listing same (base_of same))
    by_type _ e = absurd (ground arith)
