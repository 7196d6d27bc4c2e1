-- ===== src/Engine/Attempt.antt =====
-- internal/engine/switch.go: the request for a new server, the candidates in turn, and the history.
pub mod Moves
pub mod Targets
pub mod Outcomes
pub mod Keeps
use gluetun_proton_list_upda.Prelude.{
  ℕ, zero, suc, ◌+◌, ◌-◌, ◌/◌, String, Bool, true, false, not, ◌&&◌, ◌||◌, List, [], ◌∷◌, ◌++◌,
  Option, none, some, ltb, leb, ◌==◌, str_eq, is_some, if◌then◌else◌, length,
}
use gluetun_proton_list_upda.Platform.{Platform}
use gluetun_proton_list_upda.Catalog.{Candidate, contains, is_empty}
use gluetun_proton_list_upda.Scoring.{Scored, top_n}
use gluetun_proton_list_upda.Engine.State.{SwitchRecord, PersistedState, update}
use gluetun_proton_list_upda.Engine.Core.{
  Engine, Selection, GluetunStatus, reconnect_settings, reconnect_status,
}
use gluetun_proton_list_upda.Engine.Current.{lookup_candidate}
use gluetun_proton_list_upda.Engine.Remote.{
  Request, pin, reconnect, trigger_updater, wait_for_updater, write_servers, save, ApiError,
  rejected, timed_out, other, fuel_spent, known_hostnames, Reply, ok, failed, Remote,
}
use gluetun_proton_list_upda.Engine.Switch.{
  Log, wait_for_stable_tunnel, is_not_restarted, verify_tunnel,
}

unfoldable pub distinct : List String → List String
unfolding contains
distinct [] = []
distinct (h ∷ hs) = let rest = distinct hs in if contains h rest then rest else h ∷ rest

-- `gluetunMightKnowAll`
unfoldable pub might_know_all : List String → List String → Bool
unfolding contains
might_know_all [] held = true
might_know_all (h ∷ hs) held = contains h held && might_know_all hs held

module _ {F : Type 0} where
  -- `learnGluetunHostnames`
  unfoldable pub learn : ApiError → Engine F → Engine F
  unfolding known_hostnames distinct might_know_all
  learn err e = elim (known_hostnames err) [
    | none ↦ e
    | some hosts ↦
        if length (distinct hosts) == length e.known_hosts
          && might_know_all (distinct hosts) e.known_hosts
        then e
        else record e { known_hosts = distinct hosts }
  ]

  unfoldable pub might_know : Engine F → String → Bool
  unfolding contains
  might_know e host = if length e.known_hosts == 0 then true else contains host e.known_hosts

  unfoldable pub forget_hostnames : Engine F → Engine F
  forget_hostnames e = record e { known_hosts = [] }

  -- the state change of `applyTarget`
  abbrev pub remember_pin : String → PersistedState F → PersistedState F
  remember_pin host s = record s { pinned_hostname = host }

  abbrev pub save_state :
      Remote F → (PersistedState F → PersistedState F) → Engine F → Log → Engine F × Log
  save_state g change e log =
      (record e { store = (update change (g.saves (save ∷ log)) e.store).0 }, save ∷ log)

-- What the server of a switch was before it.
pub record Previous (F : Type 0) : Type 0 where
  pub hostname : String
  pub scored : Option (Scored F)

module _ {F : Type 0} (p : Platform) (g : Remote F) where
  -- lines 498 to 507 of `applyTarget`
  unfoldable pub restart_if_kept : String → Log → Reply String × Log
  unfolding is_not_restarted
  restart_if_kept outcome log =
      if is_not_restarted p outcome
      then (g.restart (reconnect ∷ log), reconnect ∷ log)
      else (ok outcome, log)

  unfoldable pub pin_target : Engine F → Scored F → Log → Reply String × Engine F × Log
  unfolding restart_if_kept
  pin_target e target log =
      let c = target.candidate in
      let asked = pin c.hostname c.country c.city ∷ log in
      elim (g.pin_server asked) [
        | failed err ↦ (failed err, e, asked)
        | ok outcome ↦
            let (e', saved) = save_state g (remember_pin c.hostname) e asked in
            let (answer, done) = restart_if_kept outcome saved in (answer, e', done)
      ]

  unfoldable pub reconnect_target : Engine F → Log → Reply String × Engine F × Log
  reconnect_target e log =
      let asked = reconnect ∷ log in
      elim (g.restart asked) [
        | failed err ↦ (failed err, e, asked)
        | ok outcome ↦
            let (e', saved) = save_state g (remember_pin "") e asked in (ok outcome, e', saved)
      ]

  unfoldable pub apply_target : Engine F → Scored F → Log → Reply String × Engine F × Log
  unfolding wait_for_stable_tunnel pin_target reconnect_target
  apply_target e target log =
      let (stable, waited) = wait_for_stable_tunnel g log in
      elim stable [
        | failed err ↦ (failed err, e, waited)
        | ok _ ↦
            if str_eq e.cfg.mode reconnect_settings
            then pin_target e target waited
            else if str_eq e.cfg.mode reconnect_status
            then reconnect_target e waited
            else (failed (other "mode does not change the tunnel"), e, waited)
      ]

  -- the text that goes into the history
  abbrev pub error_text : Option ApiError → String
  error_text none = ""
  error_text (some (other text)) = text
  error_text (some (timed_out text)) = text
  error_text (some _) = "rejected"

  unfoldable pub switch_record :
      Engine F → Previous F → Scored F → String → String → Option ApiError → ℕ → SwitchRecord F
  unfolding lookup_candidate
  switch_record e previous target reason public_ip err now = record {
    at = now;
    from = elim previous.scored [ none ↦ previous.hostname | some s ↦ s.candidate.hostname ];
    to = target.candidate.hostname;
    reason = reason;
    score_before = elim previous.scored [ none ↦ g.no_score | some s ↦ g.round s.score ];
    score_after = g.round target.score;
    load_before = elim previous.scored [
      | some s ↦ s.candidate.load
      | none ↦ elim (lookup_candidate e previous.hostname) [ some c ↦ c.load | none ↦ 0 ]
    ];
    load_after = target.candidate.load;
    rtt_after_ms = if target.latency_known then target.rtt / 1000000 else 0;
    country = target.candidate.country;
    city = target.candidate.city;
    succeeded = not (is_some err);
    error = error_text err;
    public_ip = public_ip;
  }

  abbrev pub add_record : SwitchRecord F → PersistedState F → PersistedState F
  add_record r s = record s {
    history = s.history ++ r ∷ [];
    last_switch_at = if r.succeeded then r.at else s.last_switch_at;
  }

  unfoldable pub record_switch :
      Engine F → Previous F → Scored F → String → String → Option ApiError → Log → Engine F × Log
  unfolding switch_record
  record_switch e previous target reason public_ip err log =
      save_state g (add_record (switch_record e previous target reason public_ip err (g.clock log)))
        e log

  -- `refreshGluetunServerList`: whether a retry is worth attempting
  unfoldable pub refresh_server_list : Engine F → Log → Bool × Engine F × Log
  unfolding forget_hostnames
  refresh_server_list e log =
      if not e.cfg.refresh_servers_on_reject
      then (false, e, log)
      else let asked = trigger_updater ∷ log in
        elim (g.updater asked) [
          | failed _ ↦ (false, e, asked)
          | ok _ ↦ elim (g.updater_done (wait_for_updater ∷ asked)) [
            | failed _ ↦ (false, e, wait_for_updater ∷ asked)
            | ok _ ↦ (true, forget_hostnames e, write_servers ∷ wait_for_updater ∷ asked)
          ]
        ]

  -- The snapshot after a switch that was verified.
  abbrev pub note_switched : Engine F → String → String → Engine F
  note_switched e host public_ip = record e {
    known_hosts = [];
    selection = record e.selection { needs_gluetun_restart = false; last_error = "" };
    gluetun = record e.gluetun { exit_ip = public_ip; hostnames = host ∷ [] };
  }

  -- lines 356 to 395 of `tryCandidates`, for a target that Gluetun took
  unfoldable pub confirm_target :
      Engine F → Previous F → Scored F → String → String → Log → Engine F × Log
  unfolding verify_tunnel record_switch
  confirm_target e previous target reason previous_ip log =
      let host = target.candidate.hostname in
      let (public_ip, err, looked) = verify_tunnel g e host previous_ip log in
      let (recorded, saved) = record_switch e previous target reason public_ip err looked in
      elim err [
        | none ↦ (note_switched recorded host public_ip, saved)
        | some failure ↦ (
          record recorded {
            selection = record recorded.selection { last_error = error_text (some failure) };
          },
          saved,
        )
      ]

  abbrev pub is_previous : Previous F → Scored F → Bool
  is_previous previous target = elim previous.scored [
    | none ↦ false
    | some s ↦ str_eq target.candidate.hostname s.candidate.hostname
  ]

  -- The loop of `tryCandidates` with what it has counted: whether it switched, and whether a
  -- candidate was rejected.
  unfoldable pub try_each :
      List (Scored F)
      → Engine F
      → Previous F
      → String
      → String
      → ℕ
      → ℕ
      → Log
      → Bool × Bool × Engine F × Log
  unfolding might_know apply_target learn confirm_target record_switch
  try_each [] e previous reason previous_ip rejections skipped log =
      (rejections == 0 && skipped == 0, ltb 0 rejections, e, log)
  try_each (target ∷ rest) e previous reason previous_ip rejections skipped log =
      let (answer, e', asked) = apply_target e target log in
      let (confirmed, done) = confirm_target e' previous target reason previous_ip asked in
      let passed_over = try_each rest e previous reason previous_ip rejections skipped log in
      let unknown = try_each rest e previous reason previous_ip rejections (suc skipped) log in
      if g.cancelled log
      then (false, ltb 0 rejections, e, log)
      else if is_previous previous target
      then passed_over
      else if not (might_know e target.candidate.hostname)
      then unknown
      else elim answer [
        | failed (rejected hosts) ↦
            try_each rest (learn (rejected hosts) e') previous reason previous_ip (suc rejections)
              skipped asked
        | failed (timed_out _) ↦ (true, ltb 0 rejections, confirmed, done)
        | failed err ↦
            let (failed_switch, saved) =
              record_switch e' previous target reason "" (some err) asked in
            (true, ltb 0 rejections, failed_switch, saved)
        | ok _ ↦ (true, ltb 0 rejections, confirmed, done)
      ]

  -- `tryCandidates`, with its deferred refresh
  unfoldable pub try_candidates :
      List (Scored F) → Engine F → Previous F → String → Log → Bool × Engine F × Log
  unfolding try_each refresh_server_list
  try_candidates targets e previous reason log =
      let (switched, refresh_after, e', done) =
        try_each targets e previous reason e.gluetun.exit_ip 0 0 log in
      let (_, refreshed, more) = refresh_server_list e' done in
      if refresh_after && switched then (switched, refreshed, more) else (switched, e', done)

  unfoldable pub flag_restart_needed : Engine F → Engine F
  flag_restart_needed e = record e {
    selection = record e.selection {
      needs_gluetun_restart = true;
      last_error = "Gluetun rejected every candidate hostname";
    };
  }

  unfoldable pub perform_switch : Engine F → Previous F → String → Log → Engine F × Log
  unfolding top_n try_candidates refresh_server_list flag_restart_needed
  perform_switch e previous reason log =
      let targets = top_n e.ranked e.cfg.candidates in
      let (switched, e1, log1) = try_candidates targets e previous reason log in
      let (retry, e2, log2) = refresh_server_list e1 log1 in
      let (switched_later, e3, log3) = try_candidates targets e2 previous reason log2 in
      if length targets == 0
      then (e, log)
      else if switched
      then (e1, log1)
      else if not retry
      then (flag_restart_needed e2, log2)
      else if switched_later
      then (e3, log3)
      else (flag_restart_needed e3, log3)
