-- ===== src/Framework.antt =====
-- components/zb_framework/zb_framework.c: the join window and the retries of `framework_task`. The
-- tick rate is that of sdkconfig.defaults, one per millisecond.
pub mod Bringup
pub mod Resume
pub mod Reform
pub mod Coprocessor
pub mod Rechannel
pub mod Recovery
pub mod Ready
pub mod Api
pub mod Versions
pub mod Task
pub mod Window
pub mod Restart
pub mod Orders
pub mod Press
pub mod ConfigFile
use zigbee_hub.Base.{
  ℕ, zero, suc, ◌+◌, ◌*◌, ◌-◌, ◌/◌, ◌%◌, ◌^◌, ◌≤◌, ◌<◌, ◌≡◌, ◌≢◌, ◌↔◌, ◌⊎◌, inl, inr, refl, ap, ◌∙◌,
  arith, Bool, true, false, ◌||◌, List, [], ◌∷◌, ltb, leb, ◌==◌, if◌then◌else◌, All, Bool-cases,
  replicate,
}

abbrev pub tick_rate_hz : ℕ
tick_rate_hz = 1000

-- `pdMS_TO_TICKS` on 32 bits.
abbrev pub ms_to_ticks : ℕ → ℕ
ms_to_ticks ms = ms * tick_rate_hz % 2 ^ 32 / 1000

-- `(TickType_t)UINT32_MAX`
abbrev pub indefinite : ℕ
indefinite = 2 ^ 32 - 1

-- The deadline that `process_cmd` stores for ZB_CMD_PERMIT_JOIN.
unfoldable pub permit_join_deadline : ℕ → ℕ → ℕ
permit_join_deadline now dur =
    if dur == 0
    then 0
    else if dur == 0xFF
    then indefinite
    else let dl = (now + ms_to_ticks (dur * 1000)) % 2 ^ 32 in
      if dl == indefinite then dl - 1 else dl

-- `permit_join_ttl` as `zb_network_info_get` computes it.
unfoldable pub permit_join_ttl : ℕ → ℕ → ℕ
permit_join_ttl now dl =
    if dl == 0
    then 0
    else if dl == indefinite
    then 0xFF
    else let remaining = (dl + 2 ^ 32 - now) % 2 ^ 32 in
      if remaining == 0 || leb (2 ^ 31) remaining
      then 0
      else let secs = remaining / tick_rate_hz in if ltb 254 secs then 254 else secs % 2 ^ 8

-- `zb_state_t` and `zb_network_status_t`
pub data State : Type 0 where
  uninitialized znp_init network_check forming reconfiguring ready fw_update : State

pub data Status : Type 0 where
  offline forming_network ready_closed permit_join updating : Status

-- The status that `zb_network_info_get` derives.
unfoldable pub status_of : State → ℕ → Status
status_of uninitialized ttl = offline
status_of znp_init ttl = offline
status_of network_check ttl = forming_network
status_of forming ttl = forming_network
status_of reconfiguring ttl = forming_network
status_of ready ttl = if ltb 0 ttl then permit_join else ready_closed
status_of fw_update ttl = updating

-- While a join window that was opened at `now` for 1 to 254 seconds is open, its time to live is
-- the number of whole seconds left; when it has run out it is 0; as long as the ticks do not wrap.
pub permit_join_ttl-permit_join_deadline :
    (now dur elapsed : ℕ)
    → 0 < dur
    → dur ≤ 254
    → now + dur * 1000 < 2 ^ 32 - 1
    → elapsed ≤ dur * 1000
    → permit_join_ttl (now + elapsed) (permit_join_deadline now dur) ≡ (dur * 1000 - elapsed) / 1000
unfolding permit_join_ttl permit_join_deadline
permit_join_ttl-permit_join_deadline now dur elapsed low high range past = ground arith

-- A join window of indefinite length is shown as 255 at any time, and no other is: a time to live
-- is at most 254 for every other deadline.
permit_join_ttl-indefinite :
    (now dl : ℕ)
    → ((permit_join_ttl now dl ≡ 0xFF) ↔ (dl ≡ indefinite))
      × ((permit_join_ttl now dl ≡ 0xFF) ⊎ (permit_join_ttl now dl ≤ 254))
unfolding permit_join_ttl
permit_join_ttl-indefinite now dl = ground arith

abbrev pub max_init_retries : ℕ
max_init_retries = 5

-- How a round of `framework_task` ends: ZNP_INIT fails, the network does not come up after it, or
-- the hub was ready until it had to start again.
pub data Round : Type 0 where
  init_failed bring_up_failed served : Round

-- The variable `retry` after a round, and whether the round suspends the task.
unfoldable pub count_retry : Round → ℕ → ℕ × Bool
count_retry init_failed retry = (retry + 1, ltb max_init_retries (retry + 1))
count_retry bring_up_failed retry = (0 + 1, ltb max_init_retries (0 + 1))
count_retry served retry = (0, false)

-- Whether one of the rounds suspends the task.
halts : List Round → ℕ → Bool
halts [] retry = false
halts (r ∷ rounds) retry =
    let (retry', suspended) = count_retry r retry in
    let rest = halts rounds retry' in if suspended then true else rest

-- The task never halts on a network that does not come up: as long as ZNP_INIT succeeds, no number
-- of failures is enough, since each round starts to count again from 0.
halts_bring_up :
    (rounds : List Round) (retry : ℕ)
    → All (λ r. r ≢ init_failed) rounds
    → halts rounds retry ≡ false
unfolding halts count_retry
halts_bring_up [] retry inits = refl
halts_bring_up (init_failed ∷ rounds) retry inits = absurd (inits.0 refl)
halts_bring_up (bring_up_failed ∷ rounds) retry inits = halts_bring_up rounds 1 inits.1
halts_bring_up (served ∷ rounds) retry inits = halts_bring_up rounds 0 inits.1

halts_from : (n retry : ℕ) → retry ≤ 5 → halts (replicate n init_failed) retry ≡ leb 6 (n + retry)
unfolding halts count_retry
halts_from zero retry h = ground arith
halts_from (suc n) retry h = elim (Bool-cases (ltb max_init_retries (retry + 1))) [
  | inl full ↦ rw full (ground arith)
  | inr room ↦ rw room (halts_from n (retry + 1) (ground arith) ∙ ap (λ k. leb 6 k) (omega arith))
]

-- From a fresh start, failures of ZNP_INIT in a row halt the task exactly from the sixth on.
halts_init : (n : ℕ) → halts (replicate n init_failed) 0 ≡ leb 6 n
halts_init n = halts_from n 0 (omega arith) ∙ ap (λ k. leb 6 k) (omega arith)
