-- ===== src/Mqtt/Client/Ids.antt =====
-- The message ids of `WriteMsg`.
use mqant.Prelude.{ℕ, zero, suc, ◌+◌, ◌%◌, ◌≤◌, ◌≡◌, ◌≢◌, arith}
use mqant.Mqtt.Client.{Client, get_online_msg_id}

-- The state after `n` calls.
pub after_ids : ℕ → Client → Client
after_ids zero c = c
after_ids (suc n) c = (get_online_msg_id (after_ids n c)).1

-- An id is never 0 and fits the 16 bits of the wire, and differs from the id before it.
pub get_online_msg_id_bounds :
    (c : Client)
    → c.curr_id ≤ 65535
    → (1 ≤ (get_online_msg_id c).0)
      × ((get_online_msg_id c).0 ≤ 65535)
      × ((get_online_msg_id c).0 ≢ c.curr_id)
      × ((get_online_msg_id c).1.curr_id ≡ (get_online_msg_id c).0)
unfolding get_online_msg_id
get_online_msg_id_bounds c h = ground arith

-- From a new client the ids count from 1 to 65535 and start again at 1: the (n + 1)st is
-- n % 65535 + 1.
pub get_online_msg_id-after_ids :
    (n : ℕ) (c : Client) → c.curr_id ≡ 0 → (get_online_msg_id (after_ids n c)).0 ≡ n % 65535 + 1
unfolding get_online_msg_id after_ids
get_online_msg_id-after_ids zero c h = ground arith
get_online_msg_id-after_ids (suc n) c h = ground (arith, get_online_msg_id-after_ids n c h)
