-- ===== src/Engine/Current.antt =====
-- internal/engine/tasks.go, `currentHostname`, `verifyGluetunPin` and `lookupCandidate`, and
-- history.go, `onCurrentSince`: which server the tunnel is on.
use gluetun_proton_list_upda.Prelude.{
  ℕ, String, Bool, false, not, ◌&&◌, ◌||◌, List, [], ◌∷◌, Option, none, some, str_eq, if◌then◌else◌,
}
use gluetun_proton_list_upda.Prelude.Addr.{Addr, addr_beq, is_valid}
use gluetun_proton_list_upda.Platform.{Platform}
use gluetun_proton_list_upda.Catalog.{Candidate, contains}
use gluetun_proton_list_upda.Engine.State.{update}
use gluetun_proton_list_upda.Engine.Core.{Engine, reconnect_settings}

module _ {F : Type 0} where
  -- the first candidate with the exit address
  unfoldable pub find_exit : Addr → List (Candidate F) → Option String
  find_exit address [] = none
  find_exit address (c ∷ cs) =
      if is_valid c.exit_ip && addr_beq c.exit_ip address
      then some c.hostname
      else find_exit address cs

  unfoldable pub by_exit : Platform → Engine F → Option String
  unfolding find_exit
  by_exit p e =
      if str_eq e.gluetun.exit_ip "" then none else elim (p.parse_addr e.gluetun.exit_ip) [
        | none ↦ none
        | some address ↦ elim (find_exit address e.file_candidates) [
          | some host ↦ some host
          | none ↦ find_exit address e.candidates
        ]
      ]

  unfoldable pub remembered : Engine F → String
  remembered e =
      if str_eq e.store.state.pinned_hostname ""
      then ""
      else if e.gluetun.settings_readable && str_eq e.cfg.mode reconnect_settings
      then ""
      else e.store.state.pinned_hostname

  -- `currentHostname` without the name of its source; "" is unknown.
  unfoldable pub current_hostname : Platform → Engine F → String
  unfolding by_exit remembered
  current_hostname p e = elim e.gluetun.hostnames [
    | host ∷ [] ↦ host
    | _ ↦ elim (by_exit p e) [ some host ↦ host | none ↦ remembered e ]
  ]

  -- `verifyGluetunPin`; `writes` says whether the state file can be written.
  unfoldable pub verify_pin : Bool → Engine F → Engine F
  verify_pin writes e =
      if not (str_eq e.cfg.mode reconnect_settings)
      then e
      else if str_eq e.store.state.pinned_hostname ""
      then e
      else if not e.gluetun.settings_readable
      then e
      else if contains e.store.state.pinned_hostname e.gluetun.hostnames
      then e
      else record e {
        store = (update (λ s. record s { pinned_hostname = "" }) writes e.store).0;
        known_hosts = [];
        selection = record e.selection { needs_gluetun_restart = false };
      }

  unfoldable pub find_candidate : String → List (Candidate F) → Option (Candidate F)
  find_candidate host [] = none
  find_candidate host (c ∷ cs) = if str_eq c.hostname host then some c else find_candidate host cs

  unfoldable pub lookup_candidate : Engine F → String → Option (Candidate F)
  unfolding find_candidate
  lookup_candidate e host =
      if str_eq host "" then none else elim (find_candidate host e.candidates) [
        | some c ↦ some c
        | none ↦ find_candidate host e.file_candidates
      ]

  -- 0 is the zero time
  unfoldable pub on_current_since : Engine F → String → ℕ
  on_current_since e host =
      if str_eq host "" || not (str_eq host e.store.state.pinned_hostname)
      then 0
      else e.store.state.last_switch_at
