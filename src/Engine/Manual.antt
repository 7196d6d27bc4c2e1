-- ===== src/Engine/Manual.antt =====
-- internal/engine/switch.go, `switchTo`: the move to a server that the operator chose.
pub mod Target
use gluetun_proton_list_upda.Prelude.{
  ℕ, String, Bool, true, false, not, ◌==◌, length, List, [], ◌∷◌, Option, none, some, str_eq,
  if◌then◌else◌,
}
use gluetun_proton_list_upda.Platform.{Platform}
use gluetun_proton_list_upda.Catalog.{Candidate, unmet}
use gluetun_proton_list_upda.Scoring.{Scored, find_host}
use gluetun_proton_list_upda.Engine.Core.{Engine}
use gluetun_proton_list_upda.Engine.Current.{current_hostname, find_candidate}
use gluetun_proton_list_upda.Engine.Remote.{
  ApiError, rejected, timed_out, other, fuel_spent, Reply, ok, failed, Remote,
}
use gluetun_proton_list_upda.Engine.Switch.{Log, verify_tunnel}
use gluetun_proton_list_upda.Engine.Attempt.{
  Previous, might_know, apply_target, learn, refresh_server_list, forget_hostnames,
  flag_restart_needed, record_switch,
}

-- `knownAlternativeHint`: how many servers Gluetun disclosed, and the best-ranked one among them.
pub data Hint : Type 0 where
  no_hint : Hint
  use_instead : ℕ → String → Hint
  restart_only : ℕ → Hint

module _ {F : Type 0} where
  unfoldable pub first_known : Engine F → List (Scored F) → Option String
  unfolding might_know
  first_known e [] = none
  first_known e (entry ∷ rest) =
      if might_know e entry.candidate.hostname
      then some entry.candidate.hostname
      else first_known e rest

  unfoldable pub known_alternative : Engine F → Hint
  unfolding first_known
  known_alternative e =
      if length e.known_hosts == 0 then no_hint else elim (first_known e e.ranked) [
        | none ↦ restart_only (length e.known_hosts)
        | some host ↦ use_instead (length e.known_hosts) host
      ]

-- What the operator is told. `enforced` names the filters of Gluetun that exclude the server, and
-- `unknown_to_gluetun` stands for the advice to restart it.
pub data Told : Type 0 where
  moved : Told
  not_listed : Told
  enforced : List String → Told
  unknown_to_gluetun : ApiError → Hint → Told
  not_moved : ApiError → Told

module _ {F : Type 0} where
  abbrev pub previous_of : Platform → Engine F → Previous F
  previous_of p e = record {
    hostname = current_hostname p e;
    scored = find_host e.ranked (current_hostname p e);
  }

  abbrev pub note_arrived : Engine F → String → Engine F
  note_arrived e public_ip = record e {
    known_hosts = [];
    gluetun = record e.gluetun { exit_ip = public_ip };
    selection = record e.selection { last_error = "" };
  }

module _ {F : Type 0} (p : Platform) (g : Remote F) where
  -- lines 738 to 750, for a target that Gluetun took; `e` is the engine before the request
  unfoldable pub confirm_manual :
      Engine F → Previous F → Scored F → String → Log → Told × Engine F × Log
  unfolding verify_tunnel record_switch
  confirm_manual e previous target previous_ip log =
      let (public_ip, err, looked) = verify_tunnel g e target.candidate.hostname previous_ip log in
      let (recorded, saved) = record_switch p g e previous target "manual" public_ip err looked in
      elim err [
        | some failure ↦ (not_moved failure, recorded, saved)
        | none ↦ (moved, note_arrived recorded public_ip, saved)
      ]

  -- lines 732 to 750, on an answer that is no refusal
  unfoldable pub settle_manual :
      Reply String → Engine F → Previous F → Scored F → String → Log → Told × Engine F × Log
  unfolding confirm_manual
  settle_manual (ok _) e previous target previous_ip log =
      confirm_manual e previous target previous_ip log
  settle_manual (failed err) e previous target previous_ip log =
      let (recorded, saved) = record_switch p g e previous target "manual" "" (some err) log in
      (not_moved err, recorded, saved)

  -- lines 714 to 750, on the answer to the first request
  unfoldable pub retry_manual :
      Reply String → Engine F → Previous F → Scored F → String → Log → Told × Engine F × Log
  unfolding settle_manual known_alternative
  retry_manual (failed (rejected hosts)) e previous target previous_ip log =
      let (retry, e1, log1) = refresh_server_list p g (learn (rejected hosts) e) log in
      let (answer, e2, log2) = apply_target p g e1 target log1 in
      if not retry
      then (
        unknown_to_gluetun (rejected hosts) (known_alternative e1),
        flag_restart_needed p g e1,
        log1,
      )
      else elim answer [
        | failed (rejected again) ↦ (
          unknown_to_gluetun (rejected again) (known_alternative e2),
          flag_restart_needed p g e2,
          log2,
        )
        | ok outcome ↦ settle_manual (ok outcome) e2 previous target previous_ip log2
        | failed err ↦ settle_manual (failed err) e2 previous target previous_ip log2
      ]
  retry_manual answer e previous target previous_ip log =
      settle_manual answer e previous target previous_ip log

  -- `switchTo`
  unfoldable pub switch_to : Engine F → String → Log → Told × Engine F × Log
  unfolding apply_target retry_manual current_hostname find_candidate unmet find_host
  switch_to e hostname log = elim (find_host e.ranked hostname) [
    | none ↦ elim (find_candidate hostname e.blocked) [
      | none ↦ (not_listed, e, log)
      | some c ↦ (enforced (unmet e.requirements c), e, log)
    ]
    | some target ↦
        let (answer, e', asked) = apply_target p g e target log in
        retry_manual answer e' (previous_of p e) target e.gluetun.exit_ip asked
  ]
