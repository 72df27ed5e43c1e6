-- ===== src/Command.antt =====
-- components/zb_cmd/zb_cmd.c: the command queue. `none` is a queue that was not made.
use zigbee_hub.Base.{
  ℕ, ◌≤◌, ◌<◌, ◌≡◌, ◌≢◌, ◌⊎◌, arith, Bool, ◌||◌, List, [], ◌∷◌, ◌++◌, Option, none, some, ltb,
  if◌then◌else◌, length, EspErr, ok, no_mem, invalid_arg, invalid_state,
}

-- `zb_cmd_t`
pub data Cmd : Type 0 where
  permit_join : ℕ → Cmd
  change_channel : ℕ → Cmd
  reconfigure : Cmd

-- The default of `CONFIG_ZB_CMD_QUEUE_DEPTH`.
abbrev pub cmd_queue_depth : ℕ
cmd_queue_depth = 16

abbrev pub Commands : Type 0
Commands = Option (List Cmd)

-- `zb_cmd_init`: whether the queue could be made.
unfoldable pub cmd_init : Bool → EspErr × Commands
cmd_init made = if made then (ok, some []) else (no_mem, none)

-- `xQueueSend`, which finds no room within its time where the queue stays full.
enqueue : Cmd → Commands → EspErr × Commands
enqueue c none = (invalid_state, none)
enqueue c (some q) =
    if ltb (length q) cmd_queue_depth then (ok, some (q ++ c ∷ [])) else (no_mem, some q)

unfoldable pub cmd_permit_join : ℕ → Commands → EspErr × Commands
unfolding enqueue
cmd_permit_join duration q = enqueue (permit_join duration) q

unfoldable pub cmd_change_channel : ℕ → Commands → EspErr × Commands
unfolding enqueue
cmd_change_channel channel none = (invalid_state, none)
cmd_change_channel channel (some q) =
    if ltb channel 11 || ltb 26 channel
    then (invalid_arg, some q)
    else enqueue (change_channel channel) (some q)

unfoldable pub cmd_reconfigure : Commands → EspErr × Commands
unfolding enqueue
cmd_reconfigure q = enqueue reconfigure q

-- `zb_cmd_dequeue`, without waiting.
unfoldable pub dequeue : Commands → Option Cmd × Commands
dequeue none = (none, none)
dequeue (some []) = (none, some [])
dequeue (some (c ∷ q)) = (some c, some q)

-- A channel change is accepted exactly for a channel of the 2.4 GHz band with room in the queue,
-- and then waits behind the commands that were there. Else it is refused and the queue is as it
-- was.
pub cmd_change_channel_lem :
    (channel : ℕ) (q : List Cmd)
    → (((cmd_change_channel channel (some q)).0 ≡ ok)
        × (11 ≤ channel)
        × (channel ≤ 26)
        × (length q < cmd_queue_depth)
        × ((cmd_change_channel channel (some q)).1 ≡ some (q ++ change_channel channel ∷ [])))
      ⊎ (((cmd_change_channel channel (some q)).0 ≢ ok)
          × ((channel < 11) ⊎ (26 < channel) ⊎ (cmd_queue_depth ≤ length q))
          × ((cmd_change_channel channel (some q)).1 ≡ some q))
unfolding cmd_change_channel enqueue
cmd_change_channel_lem channel q = ground arith

pub cmd_reconfigure_room :
    (q : List Cmd)
    → length q < cmd_queue_depth
    → cmd_reconfigure (some q) ≡ (ok, some (q ++ reconfigure ∷ []))
unfolding cmd_reconfigure enqueue
cmd_reconfigure_room q room = ground arith

pub cmd_permit_join_room :
    (dur : ℕ) (q : List Cmd)
    → length q < cmd_queue_depth
    → cmd_permit_join dur (some q) ≡ (ok, some (q ++ permit_join dur ∷ []))
unfolding cmd_permit_join enqueue
cmd_permit_join_room dur q room = ground arith
