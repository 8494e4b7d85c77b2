-- ===== src/Route/Settled.antt =====
-- What a reply to `mqtt.route.set` tells of the route.
use zwrt_datad.Prelude.{
  ◌≡◌, ◌≢◌, refl, ◌⊎◌, inl, inr, Bool, true, false, not, ◌||◌, none, some, arith, Bool-cases,
  Option-cases, Sum-cases,
}
use zwrt_datad.Prelude.Text.{Bytes}
use zwrt_datad.Storage.{DiskFile, holds}
use zwrt_datad.Tasks.Params.{is_int}
use zwrt_datad.Route.{
  Web, CloudConfig, Saved, SetCommand, MqttRoute, Reply, topic, is_route_set, platform_origin,
  loadable, loaded, load, assigned, store, reply, assign, apply,
}
use zwrt_datad.Route.Newest.{is_stale, asked, asked-loadable}

module _ (web : Web) (config : CloudConfig) (s : MqttRoute) (command : SetCommand) where
  -- The assignment is in force and on disk, where a start finds it.
  pub record IsApplied (saves : Bool) (r : MqttRoute × Reply) : Type 0 where
    pub next : Saved
    pub was_asked : asked web config command ≡ some next
    pub newer : is_stale s.saved next ≡ false
    pub was_saved : saves ≡ true
    pub says : (r.1.ok ≡ true) × (r.1.applied ≡ some true) × (r.1.error ≡ none)
    pub in_force : r.0.saved ≡ next
    pub on_disk : (r.0.file ≡ some (holds next)) × ((load web (holds next)).saved ≡ next)

  -- A well-formed command that is not newer changes nothing, and is acknowledged.
  pub record IsStale (r : MqttRoute × Reply) : Type 0 where
    pub next : Saved
    pub was_asked : asked web config command ≡ some next
    pub older : is_stale s.saved next ≡ true
    pub says : (r.1.ok ≡ true) × (r.1.applied ≡ some false) × (r.1.error ≡ none)
    pub kept : r.0 ≡ s

  -- A command that is refused, or that could not be saved, changes nothing and is answered an error.
  pub record IsRejected (saves : Bool) (r : MqttRoute × Reply) : Type 0 where
    pub cause : (asked web config command ≡ none) ⊎ (saves ≡ false)
    pub says : (r.1.ok ≡ false) × (r.1.applied ≡ none) × (r.1.error ≢ none)
    pub kept : r.0 ≡ s

  -- The three outcomes of `apply`.
  abbrev pub Outcome : Bool → MqttRoute × Reply → Type 0
  Outcome saves r = IsApplied saves r ⊎ (IsStale r ⊎ IsRejected saves r)

  loaded_holds : (next : Saved) → loadable web next ≡ true → (load web (holds next)).saved ≡ next
  unfolding load loaded
  loaded_holds next h = ground arith

  abbrev next_of : Bytes → Bytes → Saved
  next_of broker platform = record {
    revision = command.revision;
    route = command.route;
    broker = broker;
    platform = platform;
  }

  assign-IsStale :
      (saves : Bool) (broker platform : Bytes)
      → asked web config command ≡ some (next_of broker platform)
      → is_stale s.saved (next_of broker platform) ≡ true
      → IsStale (assign web saves config s command broker platform)
  unfolding is_stale reply assign store
  assign-IsStale saves broker platform a o =
      rw (assign, o)
        (record {
          next = next_of broker platform;
          was_asked = a;
          older = o;
          says = (refl, refl, refl);
          kept = refl;
        })

  assign-Outcome :
      (saves : Bool) (broker platform : Bytes) (file : DiskFile Saved)
      → s.file ≡ some file
      → asked web config command ≡ some (next_of broker platform)
      → is_stale s.saved (next_of broker platform) ≡ false
      → Outcome saves (assign web saves config s command broker platform)
  unfolding is_stale reply assign store
  assign-Outcome true broker platform file f a o =
      simp (assign, o, store, f)
        (inl (record {
          next = next_of broker platform;
          was_asked = a;
          newer = o;
          was_saved = refl;
          says = (refl, refl, refl);
          in_force = refl;
          on_disk = (refl, loaded_holds _ (asked-loadable web config command _ a));
        }))
  assign-Outcome false broker platform file f a o =
      simp (assign, o, store, f)
        (inr (inr (record { cause = inr refl; says = (refl, refl, λ e. cc e); kept = refl })))

  rejected :
      (saves : Bool) (code : Bytes)
      → asked web config command ≡ none
      → Outcome saves (s, reply web config command s false false (some code))
  unfolding reply
  rejected saves code n =
      inr (inr (record { cause = inl n; says = (refl, refl, λ e. cc e); kept = refl }))

  assigned-Outcome :
      (saves : Bool) (broker platform : Bytes) (file : DiskFile Saved)
      → s.file ≡ some file
      → asked web config command ≡ some (next_of broker platform)
      → Outcome saves (assign web saves config s command broker platform)
  assigned-Outcome saves broker platform file f a =
      elim (Bool-cases (is_stale s.saved (next_of broker platform))) [
        | inl o ↦ inr (inl (assign-IsStale saves broker platform a o))
        | inr o ↦ assign-Outcome saves broker platform file f a o
      ]

  -- A route that is kept in a file, under any command: the reply says that the assignment was applied
  -- exactly where it is in force and a start would find it; it is acknowledged unapplied where it is
  -- not newer than the route held under the same platform; otherwise an error is answered. In both
  -- latter cases nothing changes.
  pub apply-Outcome :
      (saves : Bool) (file : DiskFile Saved)
      → s.file ≡ some file
      → Outcome saves (apply web saves config s command)
  unfolding apply asked
  apply-Outcome saves file f =
      elim (Bool-cases (
        not (is_int 1 command.protocol_version)
        || not (topic command.request_id)
        || not (is_route_set command))) [
          | inl e ↦ rw (apply, e) (rejected saves _ (rw (asked, e)))
          | inr e ↦ elim (Sum-cases (assigned web command)) [
            | inl (code, a) ↦ rw (apply, e, a) (rejected saves _ (rw (asked, e, a)))
            | inr (broker, a) ↦ elim (Option-cases (platform_origin web config)) [
              | inl o ↦ rw (apply, e, a, o) (rejected saves _ (rw (asked, e, a, o)))
              | inr (platform, o) ↦
                  rw (apply, e, a, o)
                    (assigned-Outcome saves broker platform file f (rw (asked, e, a, o)))
            ]
          ]
        ]
