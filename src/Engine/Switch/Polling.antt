-- ===== src/Engine/Switch/Polling.antt =====
-- internal/engine/switch.go: the polling loops end, and what a confirmed tunnel is.
use gluetun_proton_list_upda.Prelude.{
  ℕ, zero, suc, ◌+◌, ◌*◌, ◌/◌, ◌≤◌, ◌<◌, ◌≡◌, ◌≢◌, ◌⊎◌, inl, inr, refl, sym, ap, subst, ◌∙◌, String,
  Bool, true, false, List, [], ◌∷◌, none, some, ltb, str_eq, str_eq_iff, Bool-cases, arith,
}
use gluetun_proton_list_upda.Engine.Core.{Engine, status_running, reconnect_settings}
use gluetun_proton_list_upda.Engine.Remote.{
  Request, ask_status, ask_settings, ask_public_ip, sleep, ApiError, fuel_spent, Reply, ok, failed,
  Remote,
}
use gluetun_proton_list_upda.Engine.Switch.{
  Log, stable_tunnel_wait, poll_interval, settle, wait_for_stable_tunnel, best_effort_public_ip,
  is_only, Look, confirmed, crashed, unconfirmed, look_running, look, verify_from, verify_tunnel,
}

-- The clock does not run backwards, and a wait takes the two seconds of the poll interval.
pub record Ticks {F : Type 0} (g : Remote F) : Type 0 where
  pub forward : (r : Request) (log : Log) → g.clock log ≤ g.clock (r ∷ log)
  pub waits : (log : Log) → g.clock log + poll_interval ≤ g.clock (sleep ∷ log)

settle_in_time :
    {F : Type 0} (g : Remote F)
    → Ticks g
    → (n started : ℕ) (log : Log) → started + stable_tunnel_wait < g.clock log + n * poll_interval
    → (settle g (suc n) started log).0 ≢ failed fuel_spent
unfolding settle
settle_in_time g ticks zero started log h = let f = ticks.forward ask_status log in ground arith
settle_in_time g ticks (suc n) started log h =
    let f = ticks.forward ask_status log in
    let w = ticks.waits (ask_status ∷ log) in
    let ih = settle_in_time g ticks n started (sleep ∷ ask_status ∷ log) in
    elim (Bool-cases (ltb (started + stable_tunnel_wait) (g.clock (ask_status ∷ log)))) [
      | inl late ↦ ground arith
      | inr early ↦ let later = ih (ground arith) in ground arith
    ]

module _ {F : Type 0} (g : Remote F) where
  look-clock :
      Ticks g
      → (pinned : Bool) (host ip : String) (log : Log)
      → g.clock log ≤ g.clock (look g pinned host ip log).1
  unfolding look look_running best_effort_public_ip
  look-clock ticks true host ip log =
      let a = ticks.forward ask_status log in
      let b = ticks.forward ask_settings (ask_status ∷ log) in
      let c = ticks.forward ask_public_ip (ask_settings ∷ ask_status ∷ log) in
      let d = ticks.forward ask_public_ip (ask_status ∷ log) in ground arith
  look-clock ticks false host ip log =
      let a = ticks.forward ask_status log in
      let d = ticks.forward ask_public_ip (ask_status ∷ log) in ground arith

  verify_in_time :
      Ticks g
      → (n deadline : ℕ) (pinned : Bool) (host ip : String) (log : Log)
      → deadline ≤ g.clock log + suc n * poll_interval
      → (verify_from g (suc n) deadline pinned host ip log).1 ≢ some fuel_spent
  unfolding verify_from
  verify_in_time ticks zero deadline pinned host ip log h =
      let w = ticks.waits log in
      let f = look-clock ticks pinned host ip (sleep ∷ log) in ground arith
  verify_in_time ticks (suc n) deadline pinned host ip log h =
      let w = ticks.waits log in
      let f = look-clock ticks pinned host ip (sleep ∷ log) in
      let looked = (look g pinned host ip (sleep ∷ log)).1 in
      let ih = verify_in_time ticks n deadline pinned host ip looked (omega arith) in ground arith

-- If the clock does not run backwards and a wait takes its two seconds, the wait for a stable tunnel
-- and the verification of a switch both end of themselves, within the rounds that the model gives
-- them: neither ever runs out.
pub polling_ends :
    {F : Type 0} (g : Remote F) (e : Engine F) (host ip : String) (log : Log)
    → Ticks g
    → ((wait_for_stable_tunnel g log).0 ≢ failed fuel_spent)
      × ((verify_tunnel g e host ip log).1 ≢ some fuel_spent)
unfolding wait_for_stable_tunnel verify_tunnel
polling_ends g e host ip log ticks = (
  settle_in_time g ticks 23 (g.clock log) log (omega arith),
  verify_in_time g ticks (e.cfg.verify_timeout / poll_interval) (g.clock log + e.cfg.verify_timeout)
      (str_eq e.cfg.mode reconnect_settings) host ip log (omega arith),
)

-- What a look that confirms a pinned tunnel was told: the tunnel runs, and Gluetun's selection is
-- the one server.
abbrev pub SeenOn : {F : Type 0} → Remote F → String → Log → Type 0
SeenOn g host log =
    (before : Log) × (log ≡ ask_public_ip ∷ ask_settings ∷ ask_status ∷ before)
    × (g.status (ask_status ∷ before) ≡ ok status_running)
    × (g.settings (ask_settings ∷ ask_status ∷ before) ≡ ok (host ∷ []))

is_only_iff : (host : String) (hosts : List String) → is_only host hosts ≡ true → hosts ≡ host ∷ []
unfolding is_only
is_only_iff host [] h = absurd (ground arith)
is_only_iff host (x ∷ []) h = ap (λ y. y ∷ []) ((str_eq_iff x host).0 h)
is_only_iff host (x ∷ y ∷ l) h = absurd (ground arith)

pub Reply-cases :
    {A : Type 0} (r : Reply A) → ((a : A) × (r ≡ ok a)) ⊎ ((e : ApiError) × (r ≡ failed e))
Reply-cases (ok a) = inl (a, refl)
Reply-cases (failed e) = inr (e, refl)

Look-cases :
    (l : Look)
    → ((ip : String) × (l ≡ confirmed ip)) ⊎ ((ip : String) × (l ≡ crashed ip)) ⊎ (l ≡ unconfirmed)
Look-cases (confirmed ip) = inl (ip, refl)
Look-cases (crashed ip) = inr (inl (ip, refl))
Look-cases unconfirmed = inr (inr refl)

module _ {F : Type 0} (g : Remote F) (host previous_ip : String) where
  look_confirmed :
      (ip : String) (log : Log)
      → (look g true host previous_ip log).0 ≡ confirmed ip
      → SeenOn g host (look g true host previous_ip log).1
  unfolding look look_running best_effort_public_ip
  look_confirmed ip log h = elim (Reply-cases (g.status (ask_status ∷ log))) [
    | inr (e, q) ↦ absurd (ground arith)
    | inl (status, q) ↦ elim (Reply-cases (g.settings (ask_settings ∷ ask_status ∷ log))) [
      | inr (e, r) ↦ absurd (ground arith)
      | inl (hosts, r) ↦
          let only = is_only_iff host hosts in
          let runs = str_eq_iff status status_running in
          (log, ground arith, ground arith, ground arith)
    ]
  ]

  verify_confirmed_from :
      (fuel deadline : ℕ) (log : Log)
      → (verify_from g fuel deadline true host previous_ip log).1 ≡ none
      → SeenOn g host (verify_from g fuel deadline true host previous_ip log).2
  unfolding verify_from
  verify_confirmed_from zero deadline log h = absurd (ground arith)
  verify_confirmed_from (suc n) deadline log h =
      let rest =
        verify_from g n deadline true host previous_ip
          (look g true host previous_ip (sleep ∷ log)).1 in
      elim (Look-cases (look g true host previous_ip (sleep ∷ log)).0) [
        | inl (ip, q) ↦ subst (SeenOn g host) (ground arith) (look_confirmed ip (sleep ∷ log) q)
        | inr (inl (ip, q)) ↦ absurd (ground arith)
        | inr (inr q) ↦ subst (SeenOn g host) (ground arith) (
            verify_confirmed_from n deadline (look g true host previous_ip (sleep ∷ log)).1
              (ground arith))
      ]

-- In the mode that pins a hostname, a verification that succeeds has asked Gluetun last for its
-- status, its selection and its address, and was told that the tunnel runs and that the selection
-- is exactly the requested server.
pub verify_tunnel_confirmed :
    {F : Type 0} (g : Remote F) (e : Engine F) (host previous_ip : String) (log : Log)
    → e.cfg.mode ≡ reconnect_settings
    → (verify_tunnel g e host previous_ip log).1 ≡ none
    → SeenOn g host (verify_tunnel g e host previous_ip log).2
unfolding verify_tunnel
verify_tunnel_confirmed g e host previous_ip log mode h =
    let pinned = (str_eq_iff e.cfg.mode reconnect_settings).1 mode in
    let fuel = suc (e.cfg.verify_timeout / poll_interval) in
    let deadline = g.clock log + e.cfg.verify_timeout in
    let run = λ (b : Bool). verify_from g fuel deadline b host previous_ip log in
    subst (λ b. SeenOn g host (run b).2) (sym pinned)
      (verify_confirmed_from g host previous_ip fuel deadline log
        (sym (ap (λ b. (run b).1) pinned) ∙ h))
