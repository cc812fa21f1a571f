-- ===== src/Network/Keeping/Groups.antt =====
-- The invariants under the handlers of consumer groups and of committed offsets
-- (core/internal/network/handler.go).
use Prim.Native.Char.{Char}
use distributed_real_time_ev.Base.{ℕ, ℤ, String, List, [], ◌∷◌}
use distributed_real_time_ev.Coordinator.Group.{Synced, sync_error, synced}
use distributed_real_time_ev.Broker.Keeping.{Keeps, returns, raises, raise-Keeps, plain_rules}
use distributed_real_time_ev.Broker.Keeping.Calls.{call_rules}
use distributed_real_time_ev.Network.Arguments.{int_arg}
use distributed_real_time_ev.Network.Groups.{
  joined_group, raise_synced, commit_offset, handle_join, handle_sync, handle_heartbeat,
  handle_leave, handle_commit, handle_offset,
}

module _ {n : ℕ} where
  raise_synced-Keeps : (outcome : Synced) → Keeps n (raise_synced outcome)
  unfolding raise_synced
  raise_synced-Keeps (sync_error message) = record { keeps = λ b g. raises g }
  raise_synced-Keeps (synced result) = record { keeps = λ b g. returns g }

  joined_group-Keeps :
      (group topic id assignor : String) → Keeps n (joined_group group topic id assignor)
  unfolding joined_group
  joined_group-Keeps group topic id assignor = search (plain_rules, call_rules) depth 30 fits 2000

  commit_offset-Keeps :
      (group topic id : String) (generation partition offset : ℤ)
      → Keeps n (commit_offset group topic id generation partition offset)
  unfolding commit_offset
  commit_offset-Keeps group topic id generation partition offset =
      search (plain_rules, call_rules) depth 30 fits 2000

  pub handle_join-Keeps :
      (lower : Char → Char) (args : List String) → Keeps n (handle_join lower args)
  unfolding handle_join int_arg
  handle_join-Keeps lower (group ∷ topic ∷ id ∷ []) =
      search (plain_rules, joined_group-Keeps) depth 30 fits 2000
  handle_join-Keeps lower (group ∷ topic ∷ id ∷ arg ∷ []) =
      search (plain_rules, joined_group-Keeps) depth 30 fits 2000
  handle_join-Keeps lower _ = raise-Keeps _ _

  pub handle_sync-Keeps : (args : List String) → Keeps n (handle_sync args)
  unfolding handle_sync int_arg
  handle_sync-Keeps (group ∷ topic ∷ id ∷ number ∷ []) =
      search (plain_rules, call_rules, raise_synced-Keeps) depth 30 fits 2000
  handle_sync-Keeps _ = raise-Keeps _ _

  pub handle_heartbeat-Keeps : (args : List String) → Keeps n (handle_heartbeat args)
  unfolding handle_heartbeat int_arg
  handle_heartbeat-Keeps (group ∷ topic ∷ id ∷ number ∷ []) =
      search (plain_rules, call_rules) depth 30 fits 2000
  handle_heartbeat-Keeps _ = raise-Keeps _ _

  pub handle_leave-Keeps : (args : List String) → Keeps n (handle_leave args)
  unfolding handle_leave int_arg
  handle_leave-Keeps (group ∷ topic ∷ id ∷ number ∷ []) =
      search (plain_rules, call_rules) depth 30 fits 2000
  handle_leave-Keeps _ = raise-Keeps _ _

  pub handle_commit-Keeps : (args : List String) → Keeps n (handle_commit args)
  unfolding handle_commit int_arg
  handle_commit-Keeps (group ∷ topic ∷ id ∷ g ∷ p ∷ o ∷ []) =
      search (plain_rules, commit_offset-Keeps) depth 30 fits 2000
  handle_commit-Keeps _ = raise-Keeps _ _

  pub handle_offset-Keeps : (args : List String) → Keeps n (handle_offset args)
  unfolding handle_offset int_arg
  handle_offset-Keeps (group ∷ topic ∷ number ∷ []) = search (plain_rules) depth 30 fits 2000
  handle_offset-Keeps _ = raise-Keeps _ _
