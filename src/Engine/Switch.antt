-- ===== src/Engine/Switch.antt =====
-- internal/engine/switch.go: the move of the tunnel to another server. Every function takes the log
-- of the requests made so far and returns the longer one; error texts are shortened.
pub mod Polling
use gluetun_proton_list_upda.Prelude.{
  ℕ, zero, suc, ◌+◌, ◌-◌, ◌/◌, String, Bool, true, false, not, ◌&&◌, ◌||◌, List, [], ◌∷◌, ◌++◌,
  Option, none, some, ltb, leb, ◌==◌, str_eq, if◌then◌else◌, length,
}
use gluetun_proton_list_upda.Platform.{Platform}
use gluetun_proton_list_upda.Catalog.{Candidate, contains, is_empty}
use gluetun_proton_list_upda.Scoring.{Scored, top_n}
use gluetun_proton_list_upda.Engine.State.{SwitchRecord, PersistedState, update}
use gluetun_proton_list_upda.Engine.Core.{
  Engine, status_running, status_crashed, status_starting, status_stopping, reconnect_settings,
  reconnect_status,
}
use gluetun_proton_list_upda.Engine.Current.{lookup_candidate}
use gluetun_proton_list_upda.Engine.Remote.{
  Request, ask_status, ask_settings, ask_public_ip, pin, reconnect, trigger_updater,
  wait_for_updater, write_servers, save, sleep, ApiError, rejected, timed_out, other, fuel_spent,
  known_hostnames, Reply, ok, failed, Remote,
}

abbrev pub Log : Type 0
Log = List Request

abbrev pub stable_tunnel_wait : ℕ
stable_tunnel_wait = 45000000000

abbrev pub poll_interval : ℕ
poll_interval = 2000000000

unfoldable pub is_changing : String → Bool
is_changing status = str_eq status status_stopping || str_eq status status_starting

module _ {F : Type 0} (g : Remote F) where
  -- `waitForStableTunnel`, with a round of its loop for each unit of fuel
  unfoldable pub settle : ℕ → ℕ → Log → Reply Unit × Log
  unfolding is_changing
  settle zero started log = (failed fuel_spent, log)
  settle (suc fuel) started log =
      let asked = ask_status ∷ log in
      let slept = sleep ∷ asked in
      let rest = settle fuel started slept in
      elim (g.status asked) [
        | failed _ ↦ (ok tt, asked)
        | ok status ↦
            if not (is_changing status)
            then (ok tt, asked)
            else if ltb (started + stable_tunnel_wait) (g.clock asked)
            then (failed (other "unavailable"), asked)
            else if g.cancelled slept
            then (failed (other "cancelled"), slept)
            else rest
      ]

  -- 24 rounds, of two seconds each, are longer than the 45 seconds.
  unfoldable pub wait_for_stable_tunnel : Log → Reply Unit × Log
  unfolding settle
  wait_for_stable_tunnel log = settle 24 (g.clock log) log

  unfoldable pub best_effort_public_ip : Log → String × Log
  best_effort_public_ip log =
      let asked = ask_public_ip ∷ log in
      elim (g.public_ip asked) [ ok ip ↦ (ip, asked) | failed _ ↦ ("", asked) ]

-- `outcomeMeansNotRestarted`
unfoldable pub is_not_restarted : Platform → String → Bool
is_not_restarted p outcome =
    let text = p.trim_space (p.to_lower outcome) in
    str_eq text "already crashed" || str_eq text "already stopped"

-- What one look of `verifyTunnel` finds: the tunnel is confirmed with a public address, or has
-- crashed, or is to be looked at again.
pub data Look : Type 0 where
  confirmed : String → Look
  crashed : String → Look
  unconfirmed : Look

unfoldable pub is_only : String → List String → Bool
is_only host (h ∷ []) = str_eq h host
is_only host _ = false

module _ {F : Type 0} (g : Remote F) where
  unfoldable pub look_running : Bool → String → String → Log → Look × Log
  unfolding is_only best_effort_public_ip
  look_running false host previous_ip log =
      let (ip, asked) = best_effort_public_ip g log in
      if not (str_eq ip "") && not (str_eq ip previous_ip)
      then (confirmed ip, asked)
      else (unconfirmed, asked)
  look_running true host previous_ip log =
      let asked = ask_settings ∷ log in
      elim (g.settings asked) [
        | failed _ ↦ (unconfirmed, asked)
        | ok hosts ↦
            if is_only host hosts
            then (let (ip, asked_ip) = best_effort_public_ip g asked in (confirmed ip, asked_ip))
            else (unconfirmed, asked)
      ]

  unfoldable pub look : Bool → String → String → Log → Look × Log
  unfolding look_running best_effort_public_ip
  look pinned host previous_ip log =
      let asked = ask_status ∷ log in
      elim (g.status asked) [
        | failed _ ↦ (unconfirmed, asked)
        | ok status ↦
            if str_eq status status_crashed
            then (let (ip, asked_ip) = best_effort_public_ip g asked in (crashed ip, asked_ip))
            else if str_eq status status_running
            then look_running pinned host previous_ip asked
            else (unconfirmed, asked)
      ]

  -- The loop of `verifyTunnel`: the public address, the error if there is one, and the log.
  unfoldable pub verify_from : ℕ → ℕ → Bool → String → String → Log → String × Option ApiError × Log
  unfolding look
  verify_from zero deadline pinned host previous_ip log = ("", some fuel_spent, log)
  verify_from (suc fuel) deadline pinned host previous_ip log =
      let slept = sleep ∷ log in
      let (seen, looked) = look pinned host previous_ip slept in
      let rest = verify_from fuel deadline pinned host previous_ip looked in
      if g.cancelled slept then ("", some (other "cancelled"), slept) else elim seen [
        | confirmed ip ↦ (ip, none, looked)
        | crashed ip ↦ (ip, some (other "vpn loop crashed"), looked)
        | unconfirmed ↦
            if not (ltb (g.clock looked) deadline)
            then ("", some (other "not confirmed"), looked)
            else rest
      ]

  -- A round takes two seconds or more, so that there are no more than the timeout has.
  unfoldable pub verify_tunnel : Engine F → String → String → Log → String × Option ApiError × Log
  unfolding verify_from
  verify_tunnel e host previous_ip log =
      verify_from (suc (e.cfg.verify_timeout / poll_interval)) (g.clock log + e.cfg.verify_timeout)
        (str_eq e.cfg.mode reconnect_settings) host previous_ip log
