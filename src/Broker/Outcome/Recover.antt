-- ===== src/Broker/Outcome/Recover.antt =====
-- `recover`: what a success leaves, and what a failure does.
use freedom_cloud.Common.{ℕ, refl, true, false, Option, none, some, arith, ◌⊎◌, inl, inr}
use freedom_cloud.Action.{
  Post, Post-weaken, Post-lift, modify-Post, lift-Post, bail_if-Post, call-Post, branch-Post,
}
use freedom_cloud.Contract.Codec.{Codec}
use freedom_cloud.Broker.Marker.{
  RecoveryMarker, BackendSnapshot, BrokerStatus, with_phase, guarded_phase,
}
use freedom_cloud.Broker.Marker.Laws.{validate_snapshot-Shows}
use freedom_cloud.Broker.Host.{Host}
use freedom_cloud.Broker.Engine.{
  Engine, drop_data_plane, reinstall, recover_nothing, recover_marker, recover_record, recover,
}
use freedom_cloud.Broker.Engine.Rules.{on_backend-Post, on_store-Post, on_verifier-Post}
use freedom_cloud.Broker.Outcome.Blocking.{
  Idle, Guarded, Stuck, Kept, status_of-Idle, status_of-Guarded, complete_disable-Post,
}

module _ (h : Host) where
  drop_data_plane-Post :
      (m : RecoveryMarker) (s : BackendSnapshot) (e : Engine h)
      → Stuck h m e
      → Post (λ _ e'. Stuck h m e') (λ _ e'. Stuck h m e') (drop_data_plane h s e)
  unfolding drop_data_plane
  drop_data_plane-Post m s e p =
      branch-Post _ _ _ _
        (λ _.
          on_backend-Post h.backend.remove_data_plane _ _ (λ _ _ _. p)
            λ _ _ _.
              on_backend-Post h.backend.snapshot _ _ (λ _ _ _. p)
                λ _ _ _. Post-lift _ _ (λ _ _. p) (λ _ _. p))
        (λ _. record { at = p })

  abbrev Recovered : BrokerStatus → Engine h → Type 0
  Recovered st e = Idle st e ⊎ ((m : RecoveryMarker) × Guarded m st e)

  reinstall-Post :
      (marker : RecoveryMarker) (s : BackendSnapshot) (e : Engine h)
      → Stuck h marker e
      → Post (λ _ e'. Stuck h marker e') Recovered (reinstall h marker s e)
  unfolding reinstall
  reinstall-Post marker s e p =
      on_verifier-Post (h.verifier.verify _) _ _ (λ _ _ _. p)
        λ verification _ _. modify-Post _ _ _ (
          call-Post _ _ _ (drop_data_plane-Post marker s _ p) (λ _ _ w. w)
            λ _ _ q.
              on_backend-Post (h.backend.install_guards _ _ _) _ _ (λ _ _ _. q)
                λ _ _ _.
                  on_backend-Post h.backend.snapshot _ _ (λ _ _ _. q)
                    λ s' _ _.
                      lift-Post _ _ _ (λ _ _. q)
                        λ _ v.
                          on_store-Post (h.store.persist _) _ _ (λ _ _ _. q)
                            λ _ _ _. modify-Post _ _ _ (record {
                              at = inr (
                                with_phase marker (guarded_phase marker.policy)
                                    s'.filter_generation,
                                status_of-Guarded h _ _ s' refl refl q.2
                                    (validate_snapshot-Shows s' marker true false v).guards_shown,
                              );
                            }))

  -- A failed recovery has moved nothing, or is stuck in recovery.
  abbrev pub Unrecovered : Engine h → Engine h → Type 0
  Unrecovered e e' = Kept h e e' ⊎ ((m : RecoveryMarker) × Stuck h m e')

  recover_nothing-Post :
      (s : BackendSnapshot) (before e : Engine h)
      → Kept h before e
      → Post (λ _ e'. Unrecovered before e') Recovered (recover_nothing h s e)
  unfolding recover_nothing
  recover_nothing-Post s before e same =
      bail_if-Post _ _ _ _ (λ _. inl same)
        λ clean.
          modify-Post _ _ _ (record { at = inl (status_of-Idle h _ s refl refl (ground arith)) })

module _ (codec : Codec) (h : Host) where
  recover_record-Post :
      (w : ℕ) (o : Option RecoveryMarker) (s : BackendSnapshot) (before e : Engine h)
      → Kept h before e
      → Post (λ _ e'. Unrecovered h before e') (Recovered h) (recover_record codec h w o s e)
  unfolding recover_record recover_marker
  recover_record-Post w none s before e same = recover_nothing-Post h s before e same
  recover_record-Post w (some marker) s before e same =
      lift-Post _ _ _ (λ _ _. inl same)
        λ _ _.
          bail_if-Post _ _ _ _ (λ _. inl same)
            λ _. modify-Post _ _ _ (
              branch-Post _ _ _ _
                (λ _.
                  Post-weaken (complete_disable-Post h marker marker _ (refl, refl, refl))
                    (λ _ w. inr (marker, w)) (λ _ w. inl w))
                (λ _.
                  Post-weaken (reinstall-Post h marker s _ (refl, refl, refl))
                    (λ _ w. inr (marker, w)) (λ _ w. w)))

  -- A recovery that succeeds, from any state of engine, store and backend, ends idle with no
  -- marker and no guards, or with the guards of a marker and no proof of health: never armed for
  -- a policy with proxy entries. One that fails changes neither phase, marker nor health, or
  -- stays in recovery under a marker and without proof of health.
  pub recover-Post :
      (e : Engine h)
      → Post
          (λ _ e'. Unrecovered h e e')
          (λ st e'. Idle st e' ⊎ ((m : RecoveryMarker) × Guarded m st e'))
          (recover codec h e)
  unfolding recover
  recover-Post e =
      on_store-Post h.store.load _ _ (λ _ _ _. inl (refl, refl, refl))
        λ r _ _. modify-Post _ _ _ (
          on_backend-Post h.backend.snapshot _ _ (λ _ _ _. inl (refl, refl, refl))
            λ s _ _. recover_record-Post r.high_watermark r.marker s e _ (refl, refl, refl))
