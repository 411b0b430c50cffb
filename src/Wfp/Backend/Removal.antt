-- ===== src/Wfp/Backend/Removal.antt =====
-- Removing the data plane and the guards: what the control plane was asked, in which order, and
-- what it answered.
use freedom_cloud.Common.{◌≡◌, refl, String, true, false, none, is_empty, not-eq_false}
use freedom_cloud.Action.{Action, Post, Post-lift, bail_if-Post, >>=-Post, ◌>>=◌}
use freedom_cloud.Fallible.{Error, ok, bail_if-eq-ok, with_context-eq-ok}
use freedom_cloud.Contract.Codec.{Codec}
use freedom_cloud.Wfp.Inventory.{WfpControlSnapshot}
use freedom_cloud.Wfp.Backend.{
  WfpControlPlane, PlannedWfpBackend, on_control, in_context, remove_data_plane, remove_guards,
}

module _ {C A B : Type 0} {E : Error → PlannedWfpBackend C → Type 0}
    {Q : B → PlannedWfpBackend C → Type 0} where
  -- A call of the control plane in a chain: the plan stays, the answer is known.
  on_control->>=-Post :
      (call : Action C A) (f : A → Action (PlannedWfpBackend C) B) (s : PlannedWfpBackend C)
      → ((x : Error) (c : C) → E x (record s { control = c }))
      → ((a : A) (c : C) → call s.control ≡ (ok a, c) → Post E Q (f a (record s { control = c })))
      → Post E Q ((on_control call >>= f) s)
  unfolding on_control
  on_control->>=-Post call f s fail next =
      >>=-Post _ _ _ (λ x _. fail x _) (λ a p. next a _ (λ i. (p i, (call s.control).1)))

  -- The same under a context.
  in_context->>=-Post :
      (note : String) (call : Action C A) (f : A → Action (PlannedWfpBackend C) B)
      (s : PlannedWfpBackend C)
      → ((x : Error) (c : C) → E x (record s { control = c }))
      → ((a : A) (c : C) → call s.control ≡ (ok a, c) → Post E Q (f a (record s { control = c })))
      → Post E Q ((in_context note (on_control call) >>= f) s)
  unfolding on_control
  in_context->>=-Post note call f s fail next =
      >>=-Post _ _ _ (λ x _. fail x _)
        (λ a p.
          next a _ (λ i. (with_context-eq-ok note (call s.control).0 a p i, (call s.control).1)))

module _ {C : Type 0} (control : WfpControlPlane C) where
  -- The calls of a removal of the data plane that succeeded, from the first to the last.
  pub record DataPlaneRemoved (s s' : PlannedWfpBackend C) : Type 0 where
    pub first : WfpControlSnapshot
    pub last : WfpControlSnapshot
    pub c1 : C
    pub c2 : C
    pub c3 : C
    pub deactivated : control.deactivate_datagram_path s.control ≡ (ok tt, c1)
    pub first_answer : control.snapshot c1 ≡ (ok first, c2)
    pub inactive : first.datagram_path_active ≡ false
    pub removed : control.remove_data_plane_filters c2 ≡ (ok tt, c3)
    pub last_answer : control.snapshot c3 ≡ (ok last, s'.control)
    pub nothing_left : is_empty last.data_plane_filter_keys ≡ true
    pub plan_kept : s'.active_plan ≡ s.active_plan

  -- The calls of a removal of the guards that succeeded, from the first to the last.
  pub record GuardsRemoved (s s' : PlannedWfpBackend C) : Type 0 where
    pub first : WfpControlSnapshot
    pub second : WfpControlSnapshot
    pub last : WfpControlSnapshot
    pub c1 : C
    pub c2 : C
    pub c3 : C
    pub c4 : C
    pub first_answer : control.snapshot s.control ≡ (ok first, c1)
    pub undirected : is_empty first.data_plane_filter_keys ≡ true
    pub removed : control.remove_guard_filters c1 ≡ (ok tt, c2)
    pub second_answer : control.snapshot c2 ≡ (ok second, c3)
    pub unguarded : is_empty second.guard_filter_keys ≡ true
    pub unloaded : control.unload_immutable_snapshot c3 ≡ (ok tt, c4)
    pub last_answer : control.snapshot c4 ≡ (ok last, s'.control)
    pub driver_empty : last.driver_snapshot_loaded ≡ false
    pub plan_gone : s'.active_plan ≡ none

module _ {C : Type 0} (codec : Codec) (control : WfpControlPlane C) where
  -- `remove_data_plane` succeeds only when the datagram path was deactivated, the snapshot after that had it inactive, the
  -- filters of the data plane were removed then, and the snapshot after that, the last answer, has none of them. The
  -- active plan stays in every case.
  pub remove_data_plane-Post :
      (s : PlannedWfpBackend C)
      → Post
          (λ _ s'. s'.active_plan ≡ s.active_plan)
          (λ _ s'. DataPlaneRemoved control s s')
          (remove_data_plane codec control s)
  unfolding remove_data_plane
  remove_data_plane-Post s =
      in_context->>=-Post _ control.deactivate_datagram_path _ s (λ _ _. refl)
        λ _ c1 deactivated.
          on_control->>=-Post control.snapshot _ _ (λ _ _. refl)
            λ first c2 first_answer.
              bail_if-Post _ _ _ _ (λ _. refl)
                λ inactive.
                  in_context->>=-Post _ control.remove_data_plane_filters _ _ (λ _ _. refl)
                    λ _ c3 removed.
                      on_control->>=-Post control.snapshot _ _ (λ _ _. refl)
                        λ last c4 last_answer.
                          Post-lift _ _ (λ _ _. refl)
                            (λ _ passed. record {
                              first = first;
                              last = last;
                              c1 = c1;
                              c2 = c2;
                              c3 = c3;
                              deactivated = deactivated;
                              first_answer = first_answer;
                              inactive = inactive;
                              removed = removed;
                              last_answer = last_answer;
                              nothing_left = not-eq_false _ (bail_if-eq-ok _ _ passed);
                              plan_kept = refl;
                            })

  -- `remove_guards` succeeds only when the control plane showed no filter of the data plane, then removed the guards, then
  -- showed no guard, then unloaded the driver's policy and showed in its last answer that it is unloaded; no plan is active then. A
  -- failure leaves the active plan.
  pub remove_guards-Post :
      (s : PlannedWfpBackend C)
      → Post
          (λ _ s'. s'.active_plan ≡ s.active_plan)
          (λ _ s'. GuardsRemoved control s s')
          (remove_guards codec control s)
  unfolding remove_guards
  remove_guards-Post s =
      on_control->>=-Post control.snapshot _ s (λ _ _. refl)
        λ first c1 first_answer.
          bail_if-Post _ _ _ _ (λ _. refl)
            λ undirected.
              in_context->>=-Post _ control.remove_guard_filters _ _ (λ _ _. refl)
                λ _ c2 removed.
                  on_control->>=-Post control.snapshot _ _ (λ _ _. refl)
                    λ second c3 second_answer.
                      bail_if-Post _ _ _ _ (λ _. refl)
                        λ unguarded.
                          in_context->>=-Post _ control.unload_immutable_snapshot _ _ (λ _ _. refl)
                            λ _ c4 unloaded.
                              on_control->>=-Post control.snapshot _ _ (λ _ _. refl)
                                λ last c5 last_answer.
                                  bail_if-Post _ _ _ _ (λ _. refl)
                                    λ empty. record {
                                      at = record {
                                        first = first;
                                        second = second;
                                        last = last;
                                        c1 = c1;
                                        c2 = c2;
                                        c3 = c3;
                                        c4 = c4;
                                        first_answer = first_answer;
                                        undirected = not-eq_false _ undirected;
                                        removed = removed;
                                        second_answer = second_answer;
                                        unguarded = not-eq_false _ unguarded;
                                        unloaded = unloaded;
                                        last_answer = last_answer;
                                        driver_empty = empty;
                                        plan_gone = refl;
                                      };
                                    }
