-- ===== src/Network/Groups.antt =====
-- core/internal/network/handler.go: the handlers of consumer groups and of committed offsets.
use Prim.Native.Char.{Char}
use distributed_real_time_ev.Base.{ℤ, pos, String, List, [], ◌∷◌, map}
use distributed_real_time_ev.Base.Text.{◌⧺◌, itoa}
use distributed_real_time_ev.Coordinator.State.{JoinResult}
use distributed_real_time_ev.Coordinator.Group.{
  join_group, leave_group, Synced, sync_error, synced, sync_group, heartbeat, validate_commit,
}
use distributed_real_time_ev.Coordinator.Offsets.{commit, get_offset}
use distributed_real_time_ev.Broker.{
  Action, ◌>>=◌, ◌>>◌, pure, raise, gets, now, on_groups, on_offsets, raise_error, or_raise, raised,
  returned,
}
use distributed_real_time_ev.Network.Arguments.{int_arg, option_arg, ints}

-- generation=%d assigned=%v
unfoldable pub join_text : JoinResult → String
join_text result =
    "generation=" ⧺ itoa result.generation ⧺ " assigned=" ⧺ ints (map (λ p. pos p) result.assigned)

unfoldable pub joined_group : String → String → String → String → Action String
joined_group group topic id assignor = do
  t ← now
  result ← on_groups (λ gm. join_group gm group topic id assignor t)
  pure (join_text result)

unfoldable pub handle_join : (Char → Char) → List String → Action String
handle_join lower (group ∷ topic ∷ id ∷ []) = joined_group group topic id ""
handle_join lower (group ∷ topic ∷ id ∷ arg ∷ []) = do
  assignor ←
      or_raise (option_arg lower "assignor" ("round_robin" ∷ "range" ∷ []) arg) "BAD_REQUEST"
        "invalid assignor; expected assignor=round_robin|range"
  joined_group group topic id assignor
handle_join lower _ =
    raise "BAD_REQUEST" "JOIN requires: <group> <topic> <consumer_id> [assignor=round_robin|range]"

unfoldable pub raise_synced : Synced → Action JoinResult
raise_synced (sync_error message) b = raised "GENERATION_MISMATCH" message b
raise_synced (synced result) b = returned result b

unfoldable pub handle_sync : List String → Action String
handle_sync (group ∷ topic ∷ id ∷ number ∷ []) = do
  generation ← int_arg number "generation"
  t ← now
  later ← now
  outcome ← on_groups (λ gm. sync_group gm group topic id generation t later)
  result ← raise_synced outcome
  pure (join_text result)
handle_sync _ = raise "BAD_REQUEST" "SYNC requires: <group> <topic> <consumer_id> <generation>"

unfoldable pub handle_heartbeat : List String → Action String
handle_heartbeat (group ∷ topic ∷ id ∷ number ∷ []) = do
  generation ← int_arg number "generation"
  t ← now
  later ← now
  failure ← on_groups (λ gm. heartbeat gm group topic id generation t later)
  raise_error failure "GENERATION_MISMATCH"
  pure "heartbeat=ok"
handle_heartbeat _ =
    raise "BAD_REQUEST" "HEARTBEAT requires: <group> <topic> <consumer_id> <generation>"

unfoldable pub handle_leave : List String → Action String
handle_leave (group ∷ topic ∷ id ∷ number ∷ []) = do
  generation ← int_arg number "generation"
  t ← now
  failure ← on_groups (λ gm. leave_group gm group topic id generation t)
  raise_error failure "GENERATION_MISMATCH"
  pure "left=true"
handle_leave _ = raise "BAD_REQUEST" "LEAVE requires: <group> <topic> <consumer_id> <generation>"

-- The part of `handleCommit` behind the reading of its arguments.
unfoldable pub commit_offset : String → String → String → ℤ → ℤ → ℤ → Action String
commit_offset group topic id generation partition offset = do
  t ← now
  failure ← on_groups (λ gm. validate_commit gm group topic id generation partition t)
  raise_error failure "GENERATION_MISMATCH"
  on_offsets (λ om. commit om group topic partition offset)
  pure "committed=true"

unfoldable pub handle_commit : List String → Action String
handle_commit (group ∷ topic ∷ id ∷ g ∷ p ∷ o ∷ []) = do
  generation ← int_arg g "generation"
  partition ← int_arg p "partition"
  offset ← int_arg o "offset"
  commit_offset group topic id generation partition offset
handle_commit _ =
    raise "BAD_REQUEST"
      "COMMIT requires: <group> <topic> <consumer_id> <generation> <partition> <offset>"

unfoldable pub handle_offset : List String → Action String
handle_offset (group ∷ topic ∷ number ∷ []) = do
  partition ← int_arg number "partition"
  offset ← gets (λ b. get_offset b.offsets group topic partition)
  pure ("offset=" ⧺ itoa offset)
handle_offset _ = raise "BAD_REQUEST" "OFFSET requires: <group> <topic> <partition>"
