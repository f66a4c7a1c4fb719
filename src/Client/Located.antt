-- ===== src/Client/Located.antt =====
-- What sending a request (src/common/client.cpp) leaves of the gateway and of what was done.
use kvik.Base.{◌≡◌, refl, ◌∙◌, In, In-append, inl}
use kvik.Client.State.{Client, Effect}
use kvik.Client.Framed.{IsFramed, framed-IsWaited}
use kvik.Client.Sending.{IsSent}

-- The gateway, the count of failed synchronisations and the check of timestamps are the same, and
-- nothing done is forgotten.
pub record Located (c c' : Client) : Type 0 where
  pub conf : c'.conf ≡ c.conf
  pub gw : c'.gw ≡ c.gw
  pub cnt : c'.time_sync_no_resp_cnt ≡ c.time_sync_no_resp_cnt
  pub ignore : c'.ignore_invalid_msg_ts ≡ c.ignore_invalid_msg_ts
  pub past : (x : Effect) → In x c.effects → In x c'.effects

pub Located-IsFramed : IsFramed Located
Located-IsFramed = record {
  same = λ c. record { conf = refl; gw = refl; cnt = refl; ignore = refl; past = λ x i. i };
  chain = λ c d e p q. record {
    conf = q.conf ∙ p.conf;
    gw = q.gw ∙ p.gw;
    cnt = q.cnt ∙ p.cnt;
    ignore = q.ignore ∙ p.ignore;
    past = λ x i. q.past x (p.past x i);
  };
  nodes = λ c n. record { conf = refl; gw = refl; cnt = refl; ignore = refl; past = λ x i. i };
  does = λ c es. record {
    conf = refl;
    gw = refl;
    cnt = refl;
    ignore = refl;
    past = λ x i. (In-append x c.effects es).1 (inl i);
  };
  puts = λ c ps. record { conf = refl; gw = refl; cnt = refl; ignore = refl; past = λ x i. i };
}

pub Located-IsSent : IsSent Located
Located-IsSent = record {
  wait = framed-IsWaited Located-IsFramed;
  counts = λ c n. record { conf = refl; gw = refl; cnt = refl; ignore = refl; past = λ x i. i };
}
