-- ===== src/Wfp/Plan/Rules.antt =====
-- The rules of a plan: one for each verified application identity of each family.
use mathlib.Core.List.{Memᴰ}
use mathlib.Core.List.Memᴰ
use mathlib.Core.List.Memᴰ.{head, tail}
use mathlib.Core.Path.{subst}
use freedom_cloud.Common.{
  ℕ, suc, ◌≡◌, refl, ap, ◌∙◌, sym, arith, Bool, true, false, not, ◌⊎◌, inl, inr, List, [], ◌∷◌,
  Option, length, not-eq_false, if◌then◌else◌,
}
use freedom_cloud.Fallible.{ok, >>=-eq-ok, bail_if->>-eq-ok, ok-injective}
use freedom_cloud.Text.{Text, text_eq, text_eq→eq}
use freedom_cloud.Contract.Policy.{StrictPolicyEntry}
use freedom_cloud.Contract.Canonical.{insert_sorted, sort_by}
use freedom_cloud.Broker.AppIds.{VerifiedApplicationAppIds}
use freedom_cloud.Wfp.Plan.{
  DriverIdentityRule, find_target, family_rules, collect_rules, sort_rules,
}

module _ {A : Type 0} (lt : A → A → Bool) where
  insert_sorted-keeps :
      (a x : A) (ys : List A) → (a ≡ x) ⊎ Memᴰ a ys → Memᴰ a (insert_sorted lt x ys)
  unfolding insert_sorted
  insert_sorted-keeps a x [] (inl e) = head e
  insert_sorted-keeps a x [] (inr m) = absurd (Memᴰ.not-nil m)
  insert_sorted-keeps a x (y ∷ ys) m = by_order (λ k. insert_sorted-keeps a x ys k) (lt y x) m
    where
      by_order :
          ((a ≡ x) ⊎ Memᴰ a ys → Memᴰ a (insert_sorted lt x ys))
          → (b : Bool) → (a ≡ x) ⊎ Memᴰ a (y ∷ ys)
          → Memᴰ a (if b then y ∷ insert_sorted lt x ys else x ∷ y ∷ ys)
      by_order further true (inl e) = tail (further (inl e))
      by_order further true (inr (head e)) = head e
      by_order further true (inr (tail n)) = tail (further (inr n))
      by_order further false (inl e) = head e
      by_order further false (inr n) = tail n

  sort_by-keeps : (a : A) (xs : List A) → Memᴰ a xs → Memᴰ a (sort_by lt xs)
  unfolding sort_by
  sort_by-keeps a [] m = m
  sort_by-keeps a (x ∷ xs) (head e) = insert_sorted-keeps a x (sort_by lt xs) (inl e)
  sort_by-keeps a (x ∷ xs) (tail m) =
      insert_sorted-keeps a x (sort_by lt xs) (inr (sort_by-keeps a xs m))

pub sort_rules-keeps :
    (rule : DriverIdentityRule) (rules : List DriverIdentityRule)
    → Memᴰ rule rules
    → Memᴰ rule (sort_rules rules)
unfolding sort_rules
sort_rules-keeps rule rules m = sort_by-keeps _ rule rules m

-- The rule of a member of an entry's family.
pub record RuleFor (entry : StrictPolicyEntry) (app_id : List ℕ) (rules : List DriverIdentityRule)
    : Type 0 where
  pub rule : DriverIdentityRule
  pub listed : Memᴰ rule rules
  pub same_app_id : rule.app_id ≡ app_id
  pub same_action : rule.action ≡ entry.action
  pub same_identity : rule.identity_id ≡ entry.identity.identity_id

abbrev pub within :
    {entry : StrictPolicyEntry} {app_id : List ℕ} {rules rules' : List DriverIdentityRule}
    → ((r : DriverIdentityRule) → Memᴰ r rules → Memᴰ r rules')
    → RuleFor entry app_id rules
    → RuleFor entry app_id rules'
within f r = record {
  rule = r.rule;
  listed = f r.rule r.listed;
  same_app_id = r.same_app_id;
  same_action = r.same_action;
  same_identity = r.same_identity;
}

family_rules-covers :
    (entry : StrictPolicyEntry) (target : Option ℕ) (family_index member_index : ℕ)
    (app_ids : List (List ℕ)) (app_id : List ℕ)
    → Memᴰ app_id app_ids
    → RuleFor entry app_id (family_rules entry target family_index member_index app_ids)
unfolding family_rules
family_rules-covers entry target family_index member_index (a ∷ rest) app_id (head e) = record {
  rule = _;
  listed = head refl;
  same_app_id = sym e;
  same_action = refl;
  same_identity = refl;
}
family_rules-covers entry target family_index member_index (a ∷ rest) app_id (tail m) =
    within (λ r n. tail n)
      (family_rules-covers entry target family_index (suc member_index) rest app_id m)
family_rules-covers entry target family_index member_index [] app_id m = absurd (Memᴰ.not-nil m)

-- Each verified identity of each family has a rule, under the entry that the family is of.
pub collect_rules-covers :
    (target_groups : List Text) (family_index : ℕ) (es : List StrictPolicyEntry)
    (fs : List VerifiedApplicationAppIds) (rules : List DriverIdentityRule)
    → collect_rules target_groups family_index es fs ≡ ok rules
    → length fs ≡ length es
    → (family : VerifiedApplicationAppIds) (app_id : List ℕ) → Memᴰ family fs
    → Memᴰ app_id family.app_ids
    → (entry : StrictPolicyEntry) × Memᴰ entry es
      × (entry.identity.identity_id ≡ family.identity_id)
      × RuleFor entry app_id rules
unfolding collect_rules
collect_rules-covers target_groups family_index es [] rules h n family app_id m k =
    absurd (Memᴰ.not-nil m)
collect_rules-covers target_groups family_index [] (f ∷ fs) rules h n family app_id m k =
    absurd (omega arith)
collect_rules-covers target_groups family_index (e ∷ es) (f ∷ fs) rules h n family app_id m k =
    let (named, h1) = bail_if->>-eq-ok (not (text_eq e.identity.identity_id f.identity_id)) _ _ h in
    let (target, _, h2) = >>=-eq-ok (find_target target_groups e.target_group) _ h1 in
    let (rest, found, h3) = >>=-eq-ok (collect_rules target_groups (suc family_index) es fs) _ h2 in
    elim (Memᴰ.cases_cons m) [
      | inl same ↦ (
        e,
        head refl,
        text_eq→eq _ _ (not-eq_false _ named) ∙ ap (λ v. v.identity_id) (sym same),
        rw (sym (ok-injective _ rules h3)) (
            within (λ r. Memᴰ.append_left rest)
              (family_rules-covers e target family_index 0 f.app_ids app_id (of_family same k))),
      )
      | inr later ↦
          let (entry, at, same, rule) =
            collect_rules-covers target_groups (suc family_index) es fs rest found (omega arith)
              family app_id later k in
          (
            entry,
            tail at,
            same,
            rw (sym (ok-injective _ rules h3)) (within (λ r. Memᴰ.append_right _) rule),
          )
    ]
  where
    of_family :
        {v w : VerifiedApplicationAppIds} → v ≡ w → Memᴰ app_id v.app_ids → Memᴰ app_id w.app_ids
    of_family q k = subst (λ v. Memᴰ app_id v.app_ids) q k
