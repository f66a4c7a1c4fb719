-- ===== src/Node/Ids.antt =====
-- The message IDs that a node gives out (`getMsgId` of src/common/node.cpp).
use kvik.Base.{ℕ, zero, suc, ◌+◌, ◌%◌, ◌<◌, ◌≡◌, ◌≢◌, arith}
use kvik.Node.{INode, get_msg_id}

-- The node after `k` calls.
unfoldable pub after_calls : ℕ → INode → INode
after_calls zero n = n
after_calls (suc k) n = after_calls k (get_msg_id n).1

after_calls_lem :
    (k : ℕ) (n : INode) → n.msg_id < 65536 → (after_calls k n).msg_id ≡ (n.msg_id + k) % 65536
unfolding after_calls get_msg_id
after_calls_lem zero n h = omega arith
after_calls_lem (suc k) n h = omega (arith, after_calls_lem k (get_msg_id n).1 (omega arith))

-- From a 16-bit ID on, the ID of call `i` differs from that of any later call `j` before the
-- counter has come round.
pub get_msg_id-ne :
    (n : INode) (i j : ℕ)
    → n.msg_id < 65536
    → i < j
    → j < i + 65536
    → (get_msg_id (after_calls i n)).0 ≢ (get_msg_id (after_calls j n)).0
unfolding get_msg_id
get_msg_id-ne n i j h lt near = omega (arith, after_calls_lem i n h, after_calls_lem j n h)
