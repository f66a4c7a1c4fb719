-- ===== src/Client/Frame.antt =====
-- The fields of a client that receiving and waiting do not write (src/common/client.cpp).
use kvik.Base.{ℕ, ◌≡◌, refl, ◌∙◌, Bool, List, ◌++◌}
use kvik.Message.{LocalMsg}
use kvik.Node.{INode}
use kvik.Client.State.{Client, PendingMsg, Effect}
use kvik.Client.Send.{Exchange, send_local_unchecked, send_local_unchecked_broadcast}
use kvik.Client.Stays.{Stays}
use kvik.Client.Framed.{IsFramed, framed-IsWaited, send_local_unchecked_broadcast-Stays}
use kvik.Client.Sending.{send_local_unchecked-Stays}

pub record Keeps (c c' : Client) : Type 0 where
  pub conf : c'.conf ≡ c.conf
  pub sub_db : c'.sub_db ≡ c.sub_db
  pub gw : c'.gw ≡ c.gw
  pub msgs_fail_cnt : c'.msgs_fail_cnt ≡ c.msgs_fail_cnt
  pub time_sync_no_resp_cnt : c'.time_sync_no_resp_cnt ≡ c.time_sync_no_resp_cnt
  pub ignore_invalid_msg_ts : c'.ignore_invalid_msg_ts ≡ c.ignore_invalid_msg_ts

pub Keeps-refl : (c : Client) → Keeps c c
Keeps-refl c = record {
  conf = refl;
  sub_db = refl;
  gw = refl;
  msgs_fail_cnt = refl;
  time_sync_no_resp_cnt = refl;
  ignore_invalid_msg_ts = refl;
}

pub Keeps-trans : {c d e : Client} → Keeps c d → Keeps d e → Keeps c e
Keeps-trans p q = record {
  conf = q.conf ∙ p.conf;
  sub_db = q.sub_db ∙ p.sub_db;
  gw = q.gw ∙ p.gw;
  msgs_fail_cnt = q.msgs_fail_cnt ∙ p.msgs_fail_cnt;
  time_sync_no_resp_cnt = q.time_sync_no_resp_cnt ∙ p.time_sync_no_resp_cnt;
  ignore_invalid_msg_ts = q.ignore_invalid_msg_ts ∙ p.ignore_invalid_msg_ts;
}

-- Changes of the other fields.
Keeps-others :
    (c : Client) (n : INode) (ps : List (ℕ × PendingMsg)) (es : List Effect)
    → Keeps c (record c { node = n; pending_msgs = ps; effects = es })
Keeps-others c n ps es = record {
  conf = refl;
  sub_db = refl;
  gw = refl;
  msgs_fail_cnt = refl;
  time_sync_no_resp_cnt = refl;
  ignore_invalid_msg_ts = refl;
}

pub Keeps-IsFramed : IsFramed Keeps
Keeps-IsFramed = record {
  same = Keeps-refl;
  chain = λ c d e p q. Keeps-trans p q;
  nodes = λ c n. Keeps-others c n c.pending_msgs c.effects;
  does = λ c es. Keeps-others c c.node c.pending_msgs (c.effects ++ es);
  puts = λ c ps. Keeps-others c c.node ps c.effects;
}

pub send_local_unchecked-Keeps :
    (x : Exchange) (msg resp : LocalMsg) (no_resp : Bool)
    → Stays Keeps (send_local_unchecked x msg resp no_resp)
send_local_unchecked-Keeps = send_local_unchecked-Stays (framed-IsWaited Keeps-IsFramed)

pub send_local_unchecked_broadcast-Keeps :
    (x : Exchange) (msg : LocalMsg) → Stays Keeps (send_local_unchecked_broadcast x msg)
send_local_unchecked_broadcast-Keeps = send_local_unchecked_broadcast-Stays Keeps-IsFramed
