-- ===== src/Worker/Queue/Routing.antt =====
-- Which queues are consumed, and on which channel.
use vpn_management_panel.Prelude.{◌≡◌, refl, true, false, not, []}
use vpn_management_panel.Worker.Queue.{
  Command, sync_all, routing_key, is_sequential, is_declared, queue_specs, consumer_queues,
}

-- The queue that a command is published to is consumed on the channel of the command's kind
-- (sequential or parallel), and not on the other channel: no command is left unconsumed, and no
-- sequential command's queue is also read in parallel.
pub routing_key-consumed :
    (c : Command)
    → (is_declared (routing_key c) (consumer_queues (is_sequential c) queue_specs []) ≡ true)
      × (is_declared (routing_key c) (consumer_queues (not (is_sequential c)) queue_specs [])
          ≡ false)
unfolding consumer_queues
routing_key-consumed sync_all = (refl, refl)
routing_key-consumed _ = (refl, refl)
