-- ===== src/Route/Newest.antt =====
-- The route that is held, against a description that knows of no file: the newest assignment.
use zwrt_datad.Prelude.{
  ◌≡◌, refl, ap, ◌∙◌, inl, inr, Bool, true, false, not, ◌&&◌, ◌||◌, Option, none, some, List, [],
  ◌∷◌, leb, arith, if◌then◌else◌, Bool-cases, Option-cases, Sum-cases,
}
use zwrt_datad.Prelude.Text.{Bytes, text_eq}
use zwrt_datad.Storage.{DiskFile, holds}
use zwrt_datad.Tasks.Params.{is_int}
use zwrt_datad.Route.{
  Web, CloudConfig, Saved, SetCommand, MqttRoute, topic, is_route_set, platform_origin, loadable,
  loaded, load, assigned, store, assign, apply, set_on_fallback,
}
use zwrt_datad.Route.Trace.{Event, commanded, on_fallback, restarted, Sample, step, run}

-- Whether the assignment leaves the one that is held: no newer one of the same platform.
unfoldable pub is_stale : Saved → Saved → Bool
is_stale held next = leb next.revision held.revision && text_eq held.platform next.platform

module _ (web : Web) where
  -- The assignment that a command asks for, if it is well formed.
  unfoldable pub asked : CloudConfig → SetCommand → Option Saved
  asked config command =
      if not (is_int 1 command.protocol_version)
        || not (topic command.request_id)
        || not (is_route_set command)
      then none
      else elim (assigned web command) [
        | inl code ↦ none
        | inr broker ↦ elim (platform_origin web config) [
          | none ↦ none
          | some platform ↦ some (record {
            revision = command.revision;
            route = command.route;
            broker = broker;
            platform = platform;
          })
        ]
      ]

  unfoldable pub taken : Bool → Saved → Option Saved → Saved
  unfolding is_stale
  taken true held (some next) = if is_stale held next then held else next
  taken _ held _ = held

  -- The last assignment that was saved and newer than the one before, or of another platform.
  unfoldable pub newest : Saved → List Sample → Saved
  unfolding asked taken
  newest held [] = held
  newest held (p ∷ samples) =
      newest
        (elim p.event [
          | commanded config command ↦ taken p.saves held (asked config command)
          | on_fallback value ↦ held
          | restarted ↦ held
        ])
        samples

  -- The state that a well-formed assignment leads to.
  abbrev pub assigned_state : Bool → MqttRoute → Option Saved → MqttRoute
  assigned_state saves s none = s
  assigned_state saves s (some next) =
      if is_stale s.saved next then s else elim (store saves s next) [ none ↦ s | some s' ↦ s' ]

  assign-assigned_state :
      (saves : Bool) (config : CloudConfig) (s : MqttRoute) (command : SetCommand)
      (broker platform : Bytes)
      → (assign web saves config s command broker platform).0
        ≡ assigned_state saves s (
            some (record {
              revision = command.revision;
              route = command.route;
              broker = broker;
              platform = platform;
            }))
  unfolding assign is_stale
  assign-assigned_state saves config s command broker platform = ground arith

  pub apply-assigned_state :
      (saves : Bool) (config : CloudConfig) (s : MqttRoute) (command : SetCommand)
      → (apply web saves config s command).0 ≡ assigned_state saves s (asked config command)
  unfolding apply asked
  apply-assigned_state saves config s command =
      elim (Bool-cases (
        not (is_int 1 command.protocol_version)
        || not (topic command.request_id)
        || not (is_route_set command))) [
          | inl e ↦ rw e
          | inr e ↦ elim (Sum-cases (assigned web command)) [
            | inl (code, a) ↦ rw (e, a)
            | inr (broker, a) ↦ elim (Option-cases (platform_origin web config)) [
              | inl o ↦ rw (e, a, o)
              | inr (platform, o) ↦
                  rw (e, a, o) (assign-assigned_state saves config s command broker platform)
            ]
          ]
        ]

  assigned-loadable :
      (command : SetCommand) (broker platform : Bytes)
      → assigned web command ≡ inr broker
      → loadable web (record {
        revision = command.revision;
        route = command.route;
        broker = broker;
        platform = platform;
      })
        ≡ true
  unfolding assigned loadable
  assigned-loadable command broker platform h = ground arith

  pub asked-loadable :
      (config : CloudConfig) (command : SetCommand) (next : Saved)
      → asked config command ≡ some next
      → loadable web next ≡ true
  unfolding asked
  asked-loadable config command next h =
      elim (Bool-cases (
        not (is_int 1 command.protocol_version)
        || not (topic command.request_id)
        || not (is_route_set command))) [
          | inl e ↦ absurd (cc (rw e at h))
          | inr e ↦ elim (Sum-cases (assigned web command)) [
            | inl (code, a) ↦ absurd (cc (rw (e, a) at h))
            | inr (broker, a) ↦ elim (Option-cases (platform_origin web config)) [
              | inl o ↦ absurd (cc (rw (e, a, o) at h))
              | inr (platform, o) ↦
                  let k = rw (e, a, o) at h in
                  let same : record {
                    revision = command.revision;
                    route = command.route;
                    broker = broker;
                    platform = platform;
                  }
                      ≡ next =
                    cc k in
                  rw (← same) (assigned-loadable command broker platform a)
            ]
          ]
        ]

  -- The file is what a start would read the route from.
  abbrev pub Held : MqttRoute → Type 0
  Held s = (file : DiskFile Saved) × (s.file ≡ some file) × (loaded web file ≡ s.saved)

  assigned_state-Held :
      (saves : Bool) (s : MqttRoute) (next : Option Saved)
      → ((a : Saved) → next ≡ some a → loadable web a ≡ true)
      → Held s
      → Held (assigned_state saves s next)
        × ((assigned_state saves s next).saved ≡ taken saves s.saved next)
  unfolding taken store loaded
  assigned_state-Held saves s none l h = (h, ground arith)
  assigned_state-Held false s (some a) l (file, e, h) = elim (Bool-cases (is_stale s.saved a)) [
    | inl t ↦ rw t ((file, e, h), refl)
    | inr t ↦ rw (t, e) ((file, e, h), refl)
  ]
  assigned_state-Held true s (some a) l (file, e, h) = elim (Bool-cases (is_stale s.saved a)) [
    | inl t ↦ rw t ((file, e, h), refl)
    | inr t ↦ rw (t, e) ((holds a, refl, ground (arith, l a refl)), refl)
  ]

  pub step-Held :
      (p : Sample) (s : MqttRoute)
      → Held s
      → Held (step web p.saves p.event s)
        × ((step web p.saves p.event s).saved ≡ newest s.saved (p ∷ []))
  unfolding step newest load set_on_fallback
  step-Held p s h = go p.event
    where
      go :
          (e : Event)
          → Held (step web p.saves e s)
            × ((step web p.saves e s).saved
                ≡ newest s.saved (record { saves = p.saves; event = e } ∷ []))
      go (commanded config command) =
          rw (apply-assigned_state p.saves config s command)
            (assigned_state-Held p.saves s (asked config command) (asked-loadable config command) h)
      go (on_fallback value) = (h, refl)
      go restarted = let (file, e, d) = h in rw e ((file, refl, refl), d)

  -- From any file and under any calls, restarts included, with saves that fail or not, the route held
  -- is the newest assignment: of the commands that are well formed and were saved, in order, each
  -- that is newer than the one held, or of another platform, takes its place.
  pub run-newest :
      (file : DiskFile Saved) (samples : List Sample)
      → (run web (load web file) samples).saved ≡ newest (loaded web file) samples
  unfolding load run newest
  run-newest file samples = go (load web file) samples (file, refl, refl)
    where
      go :
          (s : MqttRoute) (samples : List Sample)
          → Held s
          → (run web s samples).saved ≡ newest s.saved samples
      go s [] h = refl
      go s (p ∷ samples) h =
          let (h', e) = step-Held p s h in
          go (step web p.saves p.event s) samples h' ∙ ap (λ held. newest held samples) e
