-- ===== src/Client/Setup.antt =====
-- The configuration and the subscriptions while a client sends, synchronises the time and looks for
-- a gateway (src/common/client.cpp).
use kvik.Base.{◌≡◌, refl, ◌∙◌, List, some}
use kvik.Message.{LocalMsg, PubData}
use kvik.Client.State.{Client, M}
use kvik.Client.Send.{Exchange, send_local}
use kvik.Client.Subs.{publish_bulk}
use kvik.Client.Post.{Post, some-Post}
use kvik.Client.Stays.{Stays, IsKept}
use kvik.Client.Frame.{Keeps}
use kvik.Client.Framed.{IsFramed, framed-IsKept, framed-IsWaited}
use kvik.Client.Sending.{IsSent, send_local-Stays, publish_bulk-Stays}

pub record Setup (c c' : Client) : Type 0 where
  pub conf : c'.conf ≡ c.conf
  pub sub_db : c'.sub_db ≡ c.sub_db

abbrev unchanged : {c d : Client} → Keeps c d → Setup c d
unchanged k = record { conf = k.conf; sub_db = k.sub_db }

pub Keeps-Setup : {A : Type 0} (m : M A) → Stays Keeps m → Stays Setup m
Keeps-Setup m h c a d e = unchanged (h c a d e)

Setup-IsFramed : IsFramed Setup
Setup-IsFramed = record {
  same = λ c. record { conf = refl; sub_db = refl };
  chain = λ c d e p q. record { conf = q.conf ∙ p.conf; sub_db = q.sub_db ∙ p.sub_db };
  nodes = λ c n. record { conf = refl; sub_db = refl };
  does = λ c es. record { conf = refl; sub_db = refl };
  puts = λ c ps. record { conf = refl; sub_db = refl };
}

pub Setup-IsKept : IsKept Setup
Setup-IsKept = framed-IsKept Setup-IsFramed

-- A step that ends in a client with the same setup.
pub done :
    {A : Type 0} (a : A) (c d : Client)
    → d.conf ≡ c.conf
    → d.sub_db ≡ c.sub_db
    → Post (λ b e. Setup c e) (some (a, d))
done a c d p q = some-Post (λ b e. Setup c e) a d (record { conf = p; sub_db = q })

Setup-IsSent : IsSent Setup
Setup-IsSent = record {
  wait = framed-IsWaited Setup-IsFramed;
  counts = λ c n. record { conf = refl; sub_db = refl };
}

pub send_local-Setup : (x : Exchange) (msg resp : LocalMsg) → Stays Setup (send_local x msg resp)
send_local-Setup = send_local-Stays Setup-IsSent

pub publish_bulk-Setup : (x : Exchange) (pubs : List PubData) → Stays Setup (publish_bulk x pubs)
publish_bulk-Setup = publish_bulk-Stays Setup-IsSent
