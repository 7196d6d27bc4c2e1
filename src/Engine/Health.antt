-- ===== src/Engine/Health.antt =====
-- internal/engine/tasks.go, `checkGluetun`, and switch.go, `evaluate`: what a round learns of Gluetun and
-- the moves that follow.
use gluetun_proton_list_upda.Prelude.{
  String, Bool, true, false, not, ◌&&◌, ◌||◌, List, [], ◌∷◌, Option, none, some, str_eq,
  if◌then◌else◌,
}
use gluetun_proton_list_upda.Prelude.Real.{Float}
use gluetun_proton_list_upda.Platform.{Platform}
use gluetun_proton_list_upda.Proton.{LogicalServer}
use gluetun_proton_list_upda.Scoring.{Scored}
use gluetun_proton_list_upda.Serversfile.{provider}
use gluetun_proton_list_upda.Engine.Core.{Engine, GluetunStatus, status_running, status_crashed}
use gluetun_proton_list_upda.Engine.Current.{current_hostname, verify_pin}
use gluetun_proton_list_upda.Engine.Decide.{
  Stay, no_candidates, mode_none, unreachable, bad_status, other_provider, stay, go,
  evaluate_verdict,
}
use gluetun_proton_list_upda.Engine.Remote.{Request, write_servers}
use gluetun_proton_list_upda.Engine.Sets.{Enforced, update_requirements, update_vpn_type}
use gluetun_proton_list_upda.Engine.Switch.{Log}
use gluetun_proton_list_upda.Engine.Attempt.{perform_switch}
use gluetun_proton_list_upda.Engine.Manual.{previous_of}
use gluetun_proton_list_upda.Engine.Program.{
  loaded_logicals, CachedLogicals, Program, World, write_mode_none, write_servers_file,
}
use gluetun_proton_list_upda.Engine.Tasks.{refresh_data_observation}

-- What `GetSettings` tells: `provider_name` and `vpn_type` are "" where they are missing.
pub record GluetunSettings : Type 0 where
  pub vpn_type : String
  pub provider_name : String
  pub hostnames : List String
  pub enforced : Enforced

-- Gluetun's answers to one health check; `none` is an error.
pub record Checkup : Type 0 where
  pub status : Option String
  pub settings : Option GluetunSettings
  pub public_ip : Option String

abbrev pub is_usable : GluetunStatus → Bool
is_usable s = s.reachable && (str_eq s.status status_running || str_eq s.status status_crashed)

unfoldable pub became_usable : GluetunStatus → GluetunStatus → Bool
became_usable was now = is_usable now && not (is_usable was)

abbrev pub exit_of : GluetunStatus → String → Option String → String
exit_of previous status none = previous.exit_ip
exit_of previous status (some ip) =
    if str_eq status status_running && not (str_eq ip "") then ip else previous.exit_ip

-- lines 414 to 455 of `checkGluetun`
unfoldable pub note_checkup :
    String → Option GluetunSettings → Option String → GluetunStatus → GluetunStatus
note_checkup status none public_ip s = record s {
  reachable = true;
  status = status;
  exit_ip = exit_of s status public_ip;
  settings_readable = false;
}
note_checkup status (some settings) public_ip s = record s {
  reachable = true;
  status = status;
  exit_ip = exit_of s status public_ip;
  settings_readable = true;
  provider_mismatch =
      not (str_eq settings.provider_name "") && not (str_eq settings.provider_name provider);
  hostnames = settings.hostnames;
}

abbrev pub is_write : Request → Bool
is_write write_servers = true
is_write _ = false

module _ {F : Type 0} where
  -- what `evaluate` leaves as the last error, where it does not move the tunnel
  abbrev pub note_stay : Stay → Engine F → Engine F
  note_stay no_candidates e = e
  note_stay mode_none e = e
  note_stay unreachable e = record e {
    selection = record e.selection { last_error = "Gluetun is unreachable" };
  }
  note_stay (bad_status status) e = e
  note_stay other_provider e = e
  note_stay why e = record e { selection = record e.selection { last_error = "" } }

  abbrev pub note_go : Engine F → Engine F
  note_go e = record e { selection = record e.selection { last_error = ""; explanation = "" } }

  -- the servers file is written again where a switch had Gluetun fetch its own list
  unfoldable pub replay_writes : Platform → World F → Log → Program F → Program F
  unfolding write_servers_file
  replay_writes p w [] q = q
  replay_writes p w (request ∷ log) q =
      let older = replay_writes p w log q in
      if is_write request then write_servers_file p w older else older

  abbrev pub has_ranked : List (Scored F) → Bool
  has_ranked [] = false
  has_ranked (_ ∷ _) = true

  -- the list that `rebuildFromCache` finds
  abbrev pub servers_of : Option (CachedLogicals F) → Option (List (LogicalServer F))
  servers_of cached = elim (loaded_logicals cached) [ none ↦ none | some c ↦ some c.servers ]

module _ {F : Type 0} (p : Platform) where
  -- `checkServerDataIsRead`
  unfoldable pub check_server_data : World F → Program F → Program F
  unfolding refresh_data_observation
  check_server_data w q =
      let q' = refresh_data_observation p w q in
      if str_eq q.settings.write_mode write_mode_none
      then q
      else if not q'.engine.gluetun.reachable
      then q'
      else record q' { servers = record q'.servers { ignored = not q'.wrote_server_data } }

module _ {F : Type 0} (fl : Float F) (p : Platform) where
  -- `evaluate`, with the requests that it sent
  unfoldable pub evaluate : World F → Bool → Program F → Program F × Log
  unfolding evaluate_verdict perform_switch current_hostname replay_writes
  evaluate w force q =
      let (e, verdict) = evaluate_verdict fl q.engine w.now (current_hostname p q.engine) force in
      elim verdict [
        | stay why ↦ (record q { engine = note_stay why e }, [])
        | go reason ↦
            let (moved, log) =
              perform_switch p w.remote (note_go e) (previous_of p q.engine) (w.describe reason)
                [] in
            (replay_writes p w log (record q { engine = moved }), log)
      ]

  -- lines 381 to 386 of `checkGluetun`
  unfoldable pub adopt_settings : Option GluetunSettings → Program F → Program F
  unfolding update_requirements update_vpn_type
  adopt_settings none q = q
  adopt_settings (some settings) q =
      let typed =
        if str_eq settings.vpn_type ""
        then q.engine
        else update_vpn_type fl p (servers_of q.cached) settings.vpn_type q.engine in
      record q { engine = update_requirements fl p (servers_of q.cached) settings.enforced typed }

  -- lines 381 to 460 of `checkGluetun`, where Gluetun answers
  unfoldable pub note_gluetun : World F → String → Checkup → Program F → Program F
  unfolding adopt_settings note_checkup verify_pin check_server_data
  note_gluetun w status c q =
      let adopted = adopt_settings c.settings q in
      let e = record adopted.engine {
        gluetun = note_checkup status c.settings c.public_ip adopted.engine.gluetun;
      } in
      check_server_data p w (record adopted { engine = verify_pin w.saves e })

  -- `checkGluetun`
  unfoldable pub check_gluetun : World F → Checkup → Program F → Program F × Log
  unfolding note_gluetun became_usable evaluate
  check_gluetun w c q = elim c.status [
    | none ↦ (
      record q {
        engine = record q.engine { gluetun = record q.engine.gluetun { reachable = false } };
      },
      [],
    )
    | some status ↦
        let q' = note_gluetun w status c q in
        if became_usable q.engine.gluetun q'.engine.gluetun && has_ranked q'.engine.ranked
        then evaluate w false q'
        else (q', [])
  ]
