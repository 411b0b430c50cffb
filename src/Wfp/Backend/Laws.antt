-- ===== src/Wfp/Backend/Laws.antt =====
-- The calls of `PlannedWfpBackend`: success is only reported for an inventory that the control
-- plane enumerated in its last answer.

use freedom_cloud.Common.{String, ◌≡◌, refl, ◌⊎◌, inl, inr, Bool, true, false, ◌≢◌, Option, some}
use freedom_cloud.Fallible.{Error, Result, ok, err, with_context}
use freedom_cloud.Action.{
  Ends, Post-state, Post, Post-ok, Post-err, Post-lift, Post-pure, Post-weaken, Action, lift-Post,
  call-Post, attempt-Post, modify-Post,
}
use freedom_cloud.Text.{Text}
use freedom_cloud.Contract.Policy.{StrictPolicyBundle}
use freedom_cloud.Contract.Codec.{Codec}
use freedom_cloud.Broker.AppIds.{VerifiedPolicyAppIds}
use freedom_cloud.Wfp.Plan.{WfpPolicyPlan}
use freedom_cloud.Wfp.Inventory.{WfpControlSnapshot, checked_plan}
use freedom_cloud.Wfp.Backend.{
  WfpControlPlane, PlannedWfpBackend, on_control, in_context, attest, replace_guards, undo_upload,
  undo_data_plane, install_guards, cleanup_failed_datagram_activation, after_cleanup, or_clean_up,
  install_data_plane,
}
use freedom_cloud.Wfp.Backend.Attest.{Matches, validate_inventory→Matches}

with_context-Ends :
    {S A : Type 0} (E : S → Type 0) (Q : A → S → Type 0) (note : String) (r : Result A) (s : S)
    → Ends (λ _. E) Q r s
    → Ends (λ _. E) Q (with_context note r) s
with_context-Ends E Q note (ok a) s q = q
with_context-Ends E Q note (err e) s q = q

module _ {C : Type 0} (codec : Codec) (control : WfpControlPlane C) where
  abbrev pub Backend : Type 0
  Backend = PlannedWfpBackend C

  -- The last answer of the control plane was a snapshot with a property.
  pub record LastSeen (P : WfpControlSnapshot → Type 0) (s : Backend) : Type 0 where
    pub before : C
    pub seen : WfpControlSnapshot
    pub answered : control.snapshot before ≡ (ok seen, s.control)
    pub holds : P seen

  -- A call of the control plane keeps the plan.
  abbrev pub Keeps : Option WfpPolicyPlan → Backend → Type 0
  Keeps plan s = s.active_plan ≡ plan

  pub on_control-Post :
      {A : Type 0} (call : Action C A) (s : Backend) (plan : Option WfpPolicyPlan)
      → Keeps plan s
      → Post
          (λ _. Keeps plan)
          (λ a s'. Keeps plan s' × ((c : C) × (call c ≡ (ok a, s'.control))))
          (on_control call s)
  unfolding on_control
  on_control-Post call s plan k =
      Post-lift (call s.control).0 _ (λ _ _. k)
        (λ a e. (k, (s.control, λ i. (e i, (call s.control).1))))

  in_context-Post :
      {S A : Type 0} {E : S → Type 0} {Q : A → S → Type 0} (note : String) (call : Action S A)
      (s : S)
      → Post (λ _. E) Q (call s)
      → Post (λ _. E) Q (in_context note call s)
  in_context-Post {E = E} {Q = Q} note call s p = record {
    at = with_context-Ends E Q note (call s).0 (call s).1 p.at;
  }

  -- A call under a context that keeps the plan.
  pub called-Post :
      {A : Type 0} (note : String) (call : Action C A) (s : Backend) (plan : Option WfpPolicyPlan)
      → Keeps plan s
      → Post (λ _. Keeps plan) (λ _. Keeps plan) (in_context note (on_control call) s)
  called-Post note call s plan k =
      in_context-Post note (on_control call) s
        (Post-weaken (on_control-Post call s plan k) (λ _ q. q) (λ _ q. q.0))

  attest-Post :
      (plan : WfpPolicyPlan) (guards redirects active : Bool) (s : Backend)
      (p : Option WfpPolicyPlan)
      → Keeps p s
      → Post
          (λ _. Keeps p)
          (λ _ s'. Keeps p s' × LastSeen (λ seen. Matches seen plan guards redirects active) s')
          (attest codec control plan guards redirects active s)
  unfolding attest
  attest-Post plan guards redirects active s p k =
      call-Post _ _ s (on_control-Post control.snapshot s p k) (λ _ _ q. q)
        λ seen s1 (k1, (c, answered)).
          Post-lift _ s1 (λ _ _. k1)
            (λ _ valid. (
              k1,
              record {
                before = c;
                seen = seen;
                answered = answered;
                holds = validate_inventory→Matches seen plan guards redirects active valid;
              },
            ))

  undo_upload-Post :
      (r : Result Unit) (s : Backend) (p : Option WfpPolicyPlan)
      → Keeps p s
      → Post (λ _. Keeps p) (λ _. Keeps p) (undo_upload codec control r s)
  unfolding undo_upload on_control
  undo_upload-Post (ok _) s p k = Post-pure tt s k
  undo_upload-Post (err e) s p k = attempt-Post _ _ s λ r _. Post-lift _ _ (λ _ _. k) (λ _ _. k)

  replace_guards-Post :
      (plan : WfpPolicyPlan) (s : Backend) (p : Option WfpPolicyPlan)
      → Keeps p s
      → Post (λ _. Keeps p) (λ _. Keeps p) (replace_guards codec control plan s)
  unfolding replace_guards on_control
  replace_guards-Post plan s p k = attempt-Post _ _ s λ r _. undo_upload-Post r _ p k

  after_cleanup-err :
      (note failed_note : String) (e : Error) (r : Result Unit) (a : Unit)
      → after_cleanup codec control note failed_note e r ≢ ok a
  unfolding after_cleanup
  after_cleanup-err note failed_note e (ok _) a q = cc
  after_cleanup-err note failed_note e (err x) a q = cc

  cleanup-Post :
      (s : Backend) (p : Option WfpPolicyPlan)
      → Keeps p s
      → Post (λ _. Keeps p) (λ _. Keeps p) (cleanup_failed_datagram_activation codec control s)
  unfolding cleanup_failed_datagram_activation
  cleanup-Post s p k =
      call-Post _ _ s (called-Post _ control.deactivate_datagram_path s p k) (λ _ _ q. q)
        λ _ s1 k1. called-Post _ control.remove_data_plane_filters s1 p k1

  undo_data_plane-ok :
      {Q : Backend → Type 0} {E : Error → Backend → Type 0} (note failed_note : String) (a : Unit)
      (s : Backend)
      → Q s
      → Post E (λ _. Q) (undo_data_plane codec control note failed_note (ok a) s)
  unfolding undo_data_plane
  undo_data_plane-ok note failed_note a s q = Post-pure tt s q

  undo_data_plane-err :
      {Q : Backend → Type 0} (note failed_note : String) (x : Error) (s : Backend)
      (p : Option WfpPolicyPlan)
      → Keeps p s
      → Post (λ _. Keeps p) (λ _. Q) (undo_data_plane codec control note failed_note (err x) s)
  unfolding undo_data_plane
  undo_data_plane-err note failed_note x s p k = attempt-Post _ _ s λ r _.
      Post-lift _ _ (λ _ _. Post-state _ (cleanup-Post s p k))
        (λ a y. absurd (after_cleanup-err note failed_note x r a y))

  -- A step that succeeds is not undone, and one that fails stays a failure.
  or_clean_up-Post :
      {Q : Backend → Type 0} (note failed_note : String) (step : Action Backend Unit) (s : Backend)
      (p : Option WfpPolicyPlan)
      → Post (λ _. Keeps p) (λ _. Q) (step s)
      → Post (λ _. Keeps p) (λ _. Q) (or_clean_up codec control note failed_note step s)
  unfolding or_clean_up
  or_clean_up-Post {Q = Q} note failed_note step s p stepped =
      attempt-Post step _ s λ r e. by_result r e
    where
      by_result :
          (r : Result Unit)
          → (step s).0 ≡ r
          → Post
              (λ _. Keeps p)
              (λ _. Q)
              (undo_data_plane codec control note failed_note r (step s).1)
      by_result (ok a) e = undo_data_plane-ok note failed_note a (step s).1 (Post-ok stepped a e)
      by_result (err x) e =
          undo_data_plane-err note failed_note x (step s).1 p (Post-err stepped x e)

  -- The plans that a call may make the active one: the plan before, and the one that its arguments give.
  abbrev pub Planned :
      StrictPolicyBundle → VerifiedPolicyAppIds → Text → Option WfpPolicyPlan → Backend → Type 0
  Planned policy verified digest old s =
      Keeps old s
      ⊎ ((plan : WfpPolicyPlan) × (checked_plan codec policy verified digest ≡ ok plan)
          × Keeps (some plan) s)

  pub record Installed (policy : StrictPolicyBundle) (verified : VerifiedPolicyAppIds)
      (digest : Text) (redirects : Bool) (s : Backend) : Type 0 where
    pub plan : WfpPolicyPlan
    pub checked : checked_plan codec policy verified digest ≡ ok plan
    pub active : s.active_plan ≡ some plan
    pub attested : LastSeen (λ seen. Matches seen plan true redirects redirects) s

  -- `install_guards` succeeds only with a plan whose digest is the transaction's, made the active plan, and when the
  -- control plane's last answer enumerates exactly the plan's guards and nothing of the data plane. When it
  -- fails, the active plan is the one before or the checked one.
  pub install_guards-Post :
      (policy : StrictPolicyBundle) (verified : VerifiedPolicyAppIds) (digest : Text) (s : Backend)
      → Post
          (λ _. Planned policy verified digest s.active_plan)
          (λ _. Installed policy verified digest false)
          (install_guards codec control policy verified digest s)
  unfolding install_guards
  install_guards-Post policy verified digest s =
      lift-Post _ _ s (λ _ _. inl refl)
        λ plan checked.
          call-Post _ _ s
            (called-Post _ (control.upload_immutable_snapshot plan) s s.active_plan refl)
            (λ _ _ k. inl k)
            λ _ s1 k1.
              call-Post _ _ s1 (replace_guards-Post plan s1 s.active_plan k1) (λ _ _ k. inl k)
                λ _ s2 _. modify-Post _ _ s2 (
                  Post-weaken (attest-Post plan true false false _ (some plan) refl)
                    (λ _ k. inr (plan, checked, k))
                    (λ _ (k, seen). record {
                      plan = plan;
                      checked = checked;
                      active = k;
                      attested = seen;
                    }))

  -- `install_data_plane` succeeds only when the control plane's last answer enumerates exactly the plan's guards and
  -- exactly its data plane, with the datagram path active.
  pub install_data_plane-Post :
      (policy : StrictPolicyBundle) (verified : VerifiedPolicyAppIds) (digest : Text) (s : Backend)
      → Post
          (λ _. Planned policy verified digest s.active_plan)
          (λ _. Installed policy verified digest true)
          (install_data_plane codec control policy verified digest s)
  unfolding install_data_plane
  install_data_plane-Post policy verified digest s =
      lift-Post _ _ s (λ _ _. inl refl)
        λ plan checked.
          call-Post _ _ s (attest-Post plan true false false s s.active_plan refl) (λ _ _ k. inl k)
            λ _ s1 (k1, _).
              call-Post _ _ s1
                (called-Post _ (control.replace_data_plane_filters plan.data_plane_filters) s1
                  s.active_plan k1)
                (λ _ _ k. inl k)
                λ _ s2 _. modify-Post _ _ s2 (
                  call-Post _ _ _ (attest-Post plan true true false _ (some plan) refl)
                    (λ _ _ k. inr (plan, checked, k))
                    λ _ s3 (k3, _).
                      call-Post _ _ s3
                        (or_clean_up-Post _ _ _ s3 (some plan) (
                          Post-weaken
                            (on_control-Post control.activate_datagram_path s3 (some plan) k3)
                            (λ _ k. k) (λ _ k. k.0)))
                        (λ _ _ k. inr (plan, checked, k))
                        λ _ s4 k4.
                          Post-weaken
                            (or_clean_up-Post _ _ _ s4 (some plan)
                              (attest-Post plan true true true s4 (some plan) k4))
                            (λ _ k. inr (plan, checked, k))
                            (λ _ (k, seen). record {
                              plan = plan;
                              checked = checked;
                              active = k;
                              attested = seen;
                            }))
