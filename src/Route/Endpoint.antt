-- ===== src/Route/Endpoint.antt =====
-- Which endpoints the cloud connection is given.
use zwrt_datad.Prelude.{
  ◌≡◌, refl, sym, ap, subst, ◌∙◌, ◌⊎◌, inl, inr, Bool, true, false, Option, none, some, List, [],
  ◌∷◌, arith, Bool-cases, Option-cases,
}
use zwrt_datad.Prelude.Text.{Bytes, text_eq, text_eq_iff}
use zwrt_datad.Storage.{missing}
use zwrt_datad.Route.{
  Web, CloudConfig, Saved, MqttRoute, member_route, platform_origin, member_broker, loaded, load,
  member, configured, endpoints,
}
use zwrt_datad.Route.Trace.{Event, commanded, on_fallback, restarted, Sample, run}
use zwrt_datad.Route.Newest.{is_stale, asked, taken, newest, run-newest}

module _ (web : Web) where
  abbrev pub Asks : Event → Saved → Type 0
  Asks (commanded config command) a = asked web config command ≡ some a
  Asks _ a = ⊥

  -- One of the commands asks for the assignment.
  abbrev pub WasAsked : List Sample → Saved → Type 0
  WasAsked [] a = ⊥
  WasAsked (p ∷ samples) a = Asks p.event a ⊎ WasAsked samples a

  taken-cases :
      (saves : Bool) (held : Saved) (next : Option Saved)
      → (taken web saves held next ≡ held) ⊎ (next ≡ some (taken web saves held next))
  unfolding taken
  taken-cases false held next = inl refl
  taken-cases true held none = inl refl
  taken-cases true held (some a) = elim (Bool-cases (is_stale held a)) [
    | inl e ↦ rw e (inl refl)
    | inr e ↦ rw e (inr refl)
  ]

  newest-WasAsked :
      (held : Saved) (samples : List Sample)
      → (newest web held samples ≡ held) ⊎ WasAsked samples (newest web held samples)
  unfolding newest
  newest-WasAsked held [] = inl refl
  newest-WasAsked held (p ∷ samples) = go p.event (λ h. newest-WasAsked h samples)
    where
      go :
          (e : Event)
          → ((h : Saved) → (newest web h samples ≡ h) ⊎ WasAsked samples (newest web h samples))
          → let a = newest web held (record { saves = p.saves; event = e } ∷ samples) in
            (a ≡ held) ⊎ (Asks e a ⊎ WasAsked samples a)
      go (commanded config command) later =
          let next = asked web config command in
          elim (later (taken web p.saves held next)) [
            | inr w ↦ inr (inr w)
            | inl e ↦ elim (taken-cases p.saves held next) [
              | inl k ↦ inl (e ∙ k)
              | inr k ↦ inr (inl (k ∙ ap some (sym e)))
            ]
          ]
      go (on_fallback value) later = elim (later held) [ inl e ↦ inl e | inr w ↦ inr (inr w) ]
      go restarted later = elim (later held) [ inl e ↦ inl e | inr w ↦ inr (inr w) ]

  member-some :
      (s : MqttRoute) (config : CloudConfig) (broker : Bytes)
      → member web s config ≡ some broker
      → (s.saved.route ≡ member_route)
        × (platform_origin web config ≡ some s.saved.platform)
        × (member_broker web broker ≡ true)
        × (broker ≡ s.saved.broker)
  unfolding member
  member-some s config broker h = elim (Option-cases (platform_origin web config)) [
    | inl o ↦ absurd (cc (rw (member, o) at h))
    | inr (platform, o) ↦
        let k = rw (member, o) at h in
        let same : text_eq platform s.saved.platform ≡ true = ground arith in
        let route : text_eq s.saved.route member_route ≡ true = ground arith in
        (
          (text_eq_iff s.saved.route member_route).0 route,
          o ∙ ap some ((text_eq_iff platform s.saved.platform).0 same),
          ground arith,
          ground arith,
        )
  ]

  -- From a missing file and under any calls, restarts included, with saves that fail or not: the
  -- connection is given the configured broker alone, or it has the configured broker as the fallback
  -- and goes first to a valid member endpoint that is another broker and that one of the commands
  -- assigned under the platform of today's settings.
  pub endpoints_lem :
      (samples : List Sample) (config : CloudConfig)
      → let e = endpoints web (run web (load web missing) samples) config in
        (e ≡ configured config)
        ⊎ ((e.fallback ≡ some config.broker)
            × (text_eq e.primary config.broker ≡ false)
            × (member_broker web e.primary ≡ true)
            × ((a : Saved) × WasAsked samples a
                × (a.route ≡ member_route)
                × (e.primary ≡ a.broker)
                × (platform_origin web config ≡ some a.platform)))
  unfolding endpoints
  endpoints_lem samples config =
      let s = run web (load web missing) samples in
      elim (Option-cases (member web s config)) [
        | inl e ↦ rw (endpoints, e) (inl refl)
        | inr (broker, m) ↦ elim (Bool-cases (text_eq broker config.broker)) [
          | inl e ↦ rw (endpoints, m, e) (inl refl)
          | inr e ↦
              let (route, platform, valid, same) = member-some s config broker m in
              rw (endpoints, m, e)
                (inr (
                  refl,
                  e,
                  valid,
                  elim (newest-WasAsked (loaded web missing) samples) [
                    | inl n ↦
                        let held : s.saved ≡ loaded web missing =
                          run-newest web missing samples ∙ n in
                        absurd (unfold loaded in cc (held, route))
                    | inr w ↦ (
                      s.saved,
                      subst (WasAsked samples) (sym (run-newest web missing samples)) w,
                      route,
                      same,
                      platform,
                    )
                  ],
                ))
        ]
      ]
