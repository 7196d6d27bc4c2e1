-- ===== src/Engine/Remote.antt =====
-- Gluetun's control server and what else internal/engine/switch.go reaches, as answers that may
-- depend on everything asked before: nothing is assumed of them here. The log of requests is the
-- state of the outside, newest first; the errors are those of internal/gluetunapi/client.go.
use gluetun_proton_list_upda.Prelude.{ℕ, String, Bool, List, [], ◌∷◌, Option, none, some}

-- `sleep` is the wait for a poll interval, `write_servers` the rewrite of the servers file, and
-- `save` the write of the state file; `set_loop` starts or stops the tunnel or the DNS resolver.
pub data Request : Type 0 where
  ask_status : Request
  ask_settings : Request
  ask_public_ip : Request
  pin : String → String → String → Request
  reconnect : Request
  trigger_updater : Request
  wait_for_updater : Request
  write_servers : Request
  save : Request
  sleep : Request
  set_loop : String → Request

-- `rejected` holds the hostnames that the refusal enumerates. `fuel_spent` is of this model only.
pub data ApiError : Type 0 where
  rejected : List String → ApiError
  timed_out : String → ApiError
  other : String → ApiError
  fuel_spent : ApiError

-- `KnownHostnames`
unfoldable pub known_hostnames : ApiError → Option (List String)
known_hostnames (rejected []) = none
known_hostnames (rejected (h ∷ hs)) = some (h ∷ hs)
known_hostnames _ = none

pub data Reply (A : Type 0) : Type 0 where
  ok : A → Reply A
  failed : ApiError → Reply A

-- Each answer is to the request at the head of the log. `settings` is the pinned hostnames,
-- `cancelled` is `ctx.Err() != nil`, `saves` whether the state file could be written, and `round`
-- that of the scores in the switch history.
pub record Remote (F : Type 0) : Type 0 where
  pub status : List Request → Reply String
  pub settings : List Request → Reply (List String)
  pub public_ip : List Request → Reply String
  pub pin_server : List Request → Reply String
  pub restart : List Request → Reply String
  pub updater : List Request → Reply String
  pub updater_done : List Request → Reply Unit
  pub cancelled : List Request → Bool
  pub clock : List Request → ℕ
  pub saves : List Request → Bool
  pub round : F → F
  pub no_score : F
