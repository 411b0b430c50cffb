-- ===== src/Wfp/Enforcement.antt =====
-- `BrokerEngine` over `PlannedWfpBackend`, as the Broker runs them together: what a successful
-- `prepare` means for the network filters.
use mathlib.Core.List.{Memᴰ}
use mathlib.Core.Path.{subst}
use freedom_cloud.Common.{ℕ, ◌≡◌, refl, ap, ◌∙◌, sym, true, false, none, some, List}
use freedom_cloud.Fallible.{Result, ok, err, with_context}
use freedom_cloud.Action.{Post, Post-ok, modify-Post, gets-Post, lift-Post, bail_if-Post}
use freedom_cloud.Contract.Codec.{Codec}
use freedom_cloud.Contract.Policy.{StrictPolicyBundle}
use freedom_cloud.Broker.AppIds.{VerifiedApplicationAppIds, VerifiedPolicyAppIds}
use freedom_cloud.Broker.Marker.{BrokerStatus, BackendSnapshot}
use freedom_cloud.Broker.Marker.Laws.{validate_snapshot-Shows}
use freedom_cloud.Broker.Host.{Host, IdentityVerification}
use freedom_cloud.Broker.Engine.{Engine, prepare_new, prepare}
use freedom_cloud.Broker.Engine.Rules.{
  on_backend-Post, on_store-Post, on_verifier-Post, attempt_backend-Post,
}
use freedom_cloud.Broker.Outcome.{prepare-idle}
use freedom_cloud.Wfp.Backend.{
  WfpControlPlane, PlannedWfpBackend, planned_backend, install_guards, snapshot,
}
use freedom_cloud.Wfp.Backend.Laws.{LastSeen, Installed, install_guards-Post}
use freedom_cloud.Wfp.Backend.Coverage.{Enumerated, exact-Enumerated, snapshot-Post}

-- A host whose filter backend is the planned one.
abbrev pub planned_host : {C : Type 0} → Codec → WfpControlPlane C → Host → Host
planned_host {C} codec control h = record {
  Backend = PlannedWfpBackend C;
  Store = h.Store;
  Verifier = h.Verifier;
  Lease = h.Lease;
  backend = planned_backend codec control;
  store = h.store;
  verifier = h.verifier;
}

module _ {C : Type 0} (codec : Codec) (control : WfpControlPlane C) (h : Host)
    (policy : StrictPolicyBundle) where
  abbrev H : Host
  H = planned_host codec control h

  -- The engine holds the verified identities, and the control plane's last answer contains the guards of each.
  pub record Enforced (e : Engine H) : Type 0 where
    pub verification : IdentityVerification h.Lease
    pub held : e.verification_lease ≡ some verification
    pub guarded :
        (family : VerifiedApplicationAppIds) (app_id : List ℕ)
        → Memᴰ family verification.app_ids.applications
        → Memᴰ app_id family.app_ids
        → LastSeen codec control (Enumerated codec app_id) e.backend

  -- The backend's part: guards were installed, and then a snapshot said so.
  reported-Enumerated :
      (ids : VerifiedPolicyAppIds) (digest : _) (b b' b'' : PlannedWfpBackend C)
      (s : BackendSnapshot)
      → install_guards codec control policy ids digest b ≡ (ok tt, b')
      → snapshot codec control b' ≡ (ok s, b'')
      → s.guard_filters_installed ≡ true
      → (family : VerifiedApplicationAppIds) (app_id : List ℕ) → Memᴰ family ids.applications
      → Memᴰ app_id family.app_ids
      → LastSeen codec control (Enumerated codec app_id) b''
  reported-Enumerated ids digest b b' b'' s installed shown guards family app_id m k =
      let i : Installed codec control policy ids digest false b' =
        subst (Installed codec control policy ids digest false) (ap (λ r. r.1) installed) (
          Post-ok (install_guards-Post codec control policy ids digest b) tt
            (ap (λ r. r.0) installed)) in
      let (_, l) = Post-ok (snapshot-Post codec control b') s (ap (λ r. r.0) shown) in
      record {
        before = l.before;
        seen = l.seen;
        answered = l.answered ∙ ap (λ r. (ok l.seen, r.1.control)) shown;
        holds =
            exact-Enumerated codec control policy ids digest i.plan l.seen i.checked
              (l.holds.exact i.plan i.active guards) family app_id m k;
      }

  made_ok :
      {call : Result Unit × PlannedWfpBackend C} (r : Result Unit) (b' : PlannedWfpBackend C)
      → call ≡ (r, b')
      → with_context "install strict guard filters" r ≡ ok tt
      → call ≡ (ok tt, b')
  made_ok (ok _) b' e f = e
  made_ok (err x) b' e f = cc

  prepare_new-Enforced :
      (e : Engine H) → Post (λ _ _. Unit) (λ _ e'. Enforced e') (prepare_new codec H policy e)
  unfolding prepare_new
  prepare_new-Enforced e =
      lift-Post _ _ _ (λ _ _. tt)
        λ _ _.
          bail_if-Post _ _ _ _ (λ _. tt)
            λ _. gets-Post _ _ _ (
              bail_if-Post _ _ _ _ (λ _. tt)
                λ _.
                  on_verifier-Post (h.verifier.verify _) _ _ (λ _ _ _. tt)
                    λ verification _ _.
                      lift-Post _ _ _ (λ _ _. tt)
                        λ digest _.
                          on_store-Post (h.store.persist _) _ _ (λ _ _ _. tt)
                            λ _ _ _. modify-Post _ _ _ (
                              attempt_backend-Post (H.backend.install_guards _ _ _) _ _
                                λ r b' installed.
                                  lift-Post _ _ _ (λ _ _. tt)
                                    λ _ succeeded.
                                      on_backend-Post H.backend.snapshot _ _ (λ _ _ _. tt)
                                        λ s b'' shown.
                                          lift-Post _ _ _ (λ _ _. tt)
                                            λ _ valid. modify-Post _ _ _ (
                                              on_store-Post (h.store.persist _) _ _ (λ _ _ _. tt)
                                                λ _ _ _. record {
                                                  at = record {
                                                    verification = verification;
                                                    held = refl;
                                                    guarded =
                                                        reported-Enumerated verification.app_ids
                                                          digest e.backend b' b'' s
                                                          (made_ok r b' installed succeeded) shown
                                                          (validate_snapshot-Shows s _ true false
                                                            valid).guards_shown;
                                                  };
                                                })))

  -- After a `prepare` that succeeded, on an engine that had loaded its store and enforced nothing, the engine holds the
  -- verified identities, and the control plane's last answer contains the guards of each of them, on IPv4 and on
  -- IPv6.
  pub prepare-Enforced :
      (e : Engine H) (status : BrokerStatus)
      → e.store_loaded ≡ true
      → e.current_marker ≡ none
      → (prepare codec H policy e).0 ≡ ok status
      → Enforced (prepare codec H policy e).1
  prepare-Enforced e status loaded idle done =
      let same = prepare-idle codec H policy e loaded idle in
      subst (λ r. Enforced r.1) (sym same)
        (Post-ok (prepare_new-Enforced e) status (ap (λ r. r.0) (sym same) ∙ done))
