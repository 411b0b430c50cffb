-- ===== src/Contract/Validate/Laws.antt =====
-- What a policy that validates is: bounded, with a target exactly on proxy entries, and without a
-- repeated identity or application id.
use freedom_cloud.Common.{
  ℕ, ◌≡◌, refl, sym, ◌≤◌, ◌<◌, Bool, true, false, not, ◌||◌, List, [], ◌∷◌, ◌++◌, arith, ltb, ◌==◌,
  length, is_empty, Option, none, some, String,
}
use freedom_cloud.Fallible.{ok, bail_if, >>=-eq-ok, >>-eq-ok, bail_if-eq-ok, ok-injective}
use freedom_cloud.Text.{Text, to_ascii_lowercase}
use freedom_cloud.Contract.Capability.{strict_protocol_version, max_strict_applications}
use freedom_cloud.Contract.Policy.{
  StrictChildIdentity, StrictAction, proxy, block, StrictPolicyEntry, StrictPolicyBundle,
}
use freedom_cloud.Contract.Codec.{Codec}
use freedom_cloud.Contract.Validate.{
  contains, insert_new, insert_children, validate_entry, validate_target, validate_identity,
  validate_entries, validate,
}

-- None of the texts was seen before, nor is one repeated.
abbrev pub NoRepeats : List Text → List Text → Type 0
NoRepeats seen [] = Unit
NoRepeats seen (t ∷ ts) = (contains seen t ≡ false) × NoRepeats (t ∷ seen) ts

abbrev pub child_app_ids : List StrictChildIdentity → List Text
child_app_ids [] = []
child_app_ids (child ∷ rest) = to_ascii_lowercase child.wfp_app_id_sha256 ∷ child_app_ids rest

-- The application ids of all executables that the entries guard.
abbrev pub app_ids : List StrictPolicyEntry → List Text
app_ids [] = []
app_ids (entry ∷ rest) =
    to_ascii_lowercase entry.identity.wfp_app_id_sha256
    ∷ (child_app_ids entry.identity.verified_children ++ app_ids rest)

abbrev pub identity_ids : List StrictPolicyEntry → List Text
identity_ids [] = []
identity_ids (entry ∷ rest) = to_ascii_lowercase entry.identity.identity_id ∷ identity_ids rest

-- A proxy entry names a target group, a block entry none.
abbrev pub is_targeted : StrictAction → Option Text → Bool
is_targeted proxy (some target) = true
is_targeted block none = true
is_targeted _ _ = false

abbrev pub AllTargeted : List StrictPolicyEntry → Type 0
AllTargeted [] = Unit
AllTargeted (entry ∷ rest) = (is_targeted entry.action entry.target_group ≡ true) × AllTargeted rest

insert_new-NoRepeats :
    (seen seen' ts : List Text) (t : Text) (note : String)
    → insert_new seen t note ≡ ok seen'
    → NoRepeats seen' ts
    → NoRepeats seen (t ∷ ts)
insert_new-NoRepeats seen seen' ts t note p fresh =
    let (unseen, same) = >>-eq-ok (bail_if (contains seen t) note) (ok (t ∷ seen)) p in
    (bail_if-eq-ok _ note unseen, rw (sym (ok-injective _ seen' same)) at fresh)

insert_children-NoRepeats :
    (seen seen' ts : List Text) (children : List StrictChildIdentity)
    → insert_children seen children ≡ ok seen'
    → NoRepeats seen' ts
    → NoRepeats seen (child_app_ids children ++ ts)
unfolding insert_children
insert_children-NoRepeats seen seen' ts [] p fresh = rw (sym (ok-injective _ seen' p)) at fresh
insert_children-NoRepeats seen seen' ts (child ∷ rest) p fresh =
    let (between, inserted, p') =
      >>=-eq-ok
        (insert_new seen (to_ascii_lowercase child.wfp_app_id_sha256)
          "strict policy contains an ambiguous child WFP application identity")
        _ p in
    insert_new-NoRepeats seen between _ _ _ inserted
      (insert_children-NoRepeats between seen' ts rest p' fresh)

validate_target-is_targeted :
    (action : StrictAction) (target : Option Text)
    → validate_target action target ≡ ok tt
    → is_targeted action target ≡ true
unfolding validate_target
validate_target-is_targeted proxy (some target) p = refl
validate_target-is_targeted proxy none p = cc
validate_target-is_targeted block (some target) p = cc
validate_target-is_targeted block none p = refl

validate_entry-is_targeted :
    (entry : StrictPolicyEntry)
    → validate_entry entry ≡ ok tt
    → is_targeted entry.action entry.target_group ≡ true
unfolding validate_entry
validate_entry-is_targeted entry p =
    validate_target-is_targeted entry.action entry.target_group
      (>>-eq-ok (validate_identity entry.identity) _ p).1

-- The three things that the loop over the entries establishes.
abbrev pub Entries : List Text → List Text → List StrictPolicyEntry → Type 0
Entries identities seen entries =
    AllTargeted entries
    × NoRepeats identities (identity_ids entries)
    × NoRepeats seen (app_ids entries)

validate_entries-Entries :
    (identities seen : List Text) (entries : List StrictPolicyEntry)
    → validate_entries identities seen entries ≡ ok tt
    → Entries identities seen entries
unfolding validate_entries
validate_entries-Entries identities seen [] p = (tt, tt, tt)
validate_entries-Entries identities seen (entry ∷ rest) p =
    let (entry_valid, p1) = >>-eq-ok (validate_entry entry) _ p in
    let (identities', fresh_id, p2) =
      >>=-eq-ok
        (insert_new identities (to_ascii_lowercase entry.identity.identity_id)
          "strict policy contains a duplicate identity ID")
        _ p1 in
    let (primary, fresh_app, p3) =
      >>=-eq-ok
        (insert_new seen (to_ascii_lowercase entry.identity.wfp_app_id_sha256)
          "strict policy contains an ambiguous WFP application identity")
        _ p2 in
    let (seen', fresh_children, p4) =
      >>=-eq-ok (insert_children primary entry.identity.verified_children) _ p3 in
    let (targeted, ids, apps) = validate_entries-Entries identities' seen' rest p4 in
    (
      (validate_entry-is_targeted entry entry_valid, targeted),
      insert_new-NoRepeats identities identities' _ _ _ fresh_id ids,
      insert_new-NoRepeats seen primary _ _ _ fresh_app
          (insert_children-NoRepeats primary seen' _ _ fresh_children apps),
    )

pub record WellFormed (policy : StrictPolicyBundle) : Type 0 where
  pub version : policy.protocol ≡ 2
  pub positive : 0 < policy.revision
  pub nonempty : 0 < length policy.entries
  pub bounded : length policy.entries ≤ 128
  pub targeted : AllTargeted policy.entries
  pub distinct_identities : NoRepeats [] (identity_ids policy.entries)
  pub distinct_app_ids : NoRepeats [] (app_ids policy.entries)

-- A policy that validates has version 2, a positive revision and 1 to 128 entries; a target group
-- stands exactly on its proxy entries; no identity id is repeated, and no application id over all
-- primary and child executables, case aside.
pub validate→WellFormed :
    (codec : Codec) (policy : StrictPolicyBundle)
    → validate codec policy ≡ ok tt
    → WellFormed policy
unfolding validate
validate→WellFormed codec policy p =
    let (version, p1) =
      >>-eq-ok
        (bail_if (not (policy.protocol == strict_protocol_version))
          "unsupported strict policy protocol")
        _ p in
    let (positive, p2) =
      >>-eq-ok (bail_if (policy.revision == 0) "strict policy revision must be positive") _ p1 in
    let (counted, p3) =
      >>-eq-ok
        (bail_if (is_empty policy.entries || ltb max_strict_applications (length policy.entries))
          "strict policy must contain between 1 and 128 apps")
        _ p2 in
    let (entries, p4) = >>-eq-ok (validate_entries [] [] policy.entries) _ p3 in
    let count = between policy.entries (bail_if-eq-ok _ _ counted) in
    let (targeted, ids, apps) = validate_entries-Entries [] [] policy.entries entries in
    record {
      version = is_two policy.protocol (bail_if-eq-ok _ _ version);
      positive = above_zero policy.revision (bail_if-eq-ok _ _ positive);
      nonempty = count.0;
      bounded = count.1;
      targeted = targeted;
      distinct_identities = ids;
      distinct_app_ids = apps;
    }
  where
    is_two : (n : ℕ) → not (n == strict_protocol_version) ≡ false → n ≡ 2
    is_two n q = ground arith

    above_zero : (n : ℕ) → (n == 0) ≡ false → 0 < n
    above_zero n q = ground arith

    between :
        (entries : List StrictPolicyEntry)
        → (is_empty entries || ltb max_strict_applications (length entries)) ≡ false
        → (0 < length entries) × (length entries ≤ 128)
    between [] q = cc
    between (entry ∷ rest) q = (omega arith, ground arith)
