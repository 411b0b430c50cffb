-- ===== src/Contract/Migration/Laws.antt =====
-- What an identity migration keeps.
use freedom_cloud.Common.{
  ℕ, ◌≡◌, refl, ap, sym, ◌<◌, Bool, true, false, not, ◌&&◌, ◌||◌, List, [], ◌∷◌, arith, leb, ◌==◌,
  any, all, length, Option, none, some, String,
}
use freedom_cloud.Fallible.{ok, bail_if, ok_or, >>=-eq-ok, >>-eq-ok, bail_if-eq-ok, ok-injective}
use freedom_cloud.Text.{eq_ignore_ascii_case}
use freedom_cloud.Contract.Policy.{
  StrictChildIdentity, StrictIdentity, StrictPolicyEntry, StrictPolicyBundle,
}
use freedom_cloud.Contract.Codec.{Codec}
use freedom_cloud.Contract.Validate.{validate}
use freedom_cloud.Contract.Migration.{
  same_action, same_target, find_identity, family_contains, child_is, retains_child, migrate_entry,
  migrate_entries, validate_identity_migration,
}

-- The executables that an identity guards: its primary one and its children.
abbrev pub family : StrictIdentity → List StrictChildIdentity
family identity =
    record {
      canonical_path = identity.canonical_path;
      wfp_app_id_sha256 = identity.wfp_app_id_sha256;
      publisher_certificate_sha256 = identity.publisher_certificate_sha256;
    }
    ∷ identity.verified_children

-- Two executables with one path, application id and publisher, case aside.
unfoldable pub same_executable : StrictChildIdentity → StrictChildIdentity → Bool
same_executable a b =
    eq_ignore_ascii_case a.canonical_path b.canonical_path
    && eq_ignore_ascii_case a.wfp_app_id_sha256 b.wfp_app_id_sha256
    && eq_ignore_ascii_case a.publisher_certificate_sha256 b.publisher_certificate_sha256

-- Each executable of the first identity is one of the second's.
abbrev pub is_covered : StrictIdentity → StrictIdentity → Bool
is_covered previous next =
    all (λ old. any (λ new. same_executable new old) (family next)) (family previous)

-- An old entry goes on in a new one with its identity id, action, target group and publisher, and
-- with all its executables.
pub record GoesOn (entries : List StrictPolicyEntry) (previous : StrictPolicyEntry) : Type 0 where
  pub next : StrictPolicyEntry
  pub found : find_identity previous.identity.identity_id entries ≡ some next
  pub action_kept : same_action next.action previous.action ≡ true
  pub target_kept : same_target next.target_group previous.target_group ≡ true
  pub publisher_kept :
      eq_ignore_ascii_case next.identity.publisher_certificate_sha256
        previous.identity.publisher_certificate_sha256
      ≡ true
  pub covered : is_covered previous.identity next.identity ≡ true

abbrev pub AllGoOn : List StrictPolicyEntry → List StrictPolicyEntry → Type 0
AllGoOn entries [] = Unit
AllGoOn entries (previous ∷ rest) = GoesOn entries previous × AllGoOn entries rest

family_contains-any :
    (next : StrictIdentity) (old : StrictChildIdentity)
    → retains_child next old ≡ any (λ new. same_executable new old) (family next)
unfolding retains_child family_contains child_is same_executable
family_contains-any next old = refl

all_retained :
    (next : StrictIdentity) (olds : List StrictChildIdentity)
    → any (λ child. not (retains_child next child)) olds ≡ false
    → all (λ old. any (λ new. same_executable new old) (family next)) olds ≡ true
all_retained next [] p = refl
all_retained next (old ∷ rest) p =
    rw (sym (family_contains-any next old)) (ground (arith, all_retained next rest))

ok_or-eq_ok : {A : Type 0} (o : Option A) (note : String) (a : A) → ok_or o note ≡ ok a → o ≡ some a
ok_or-eq_ok none note a p = cc
ok_or-eq_ok (some b) note a p = ap some (ok-injective b a p)

migrate_entry-GoesOn :
    (entries : List StrictPolicyEntry) (previous : StrictPolicyEntry)
    → migrate_entry entries previous ≡ ok tt
    → GoesOn entries previous
unfolding migrate_entry retains_child
migrate_entry-GoesOn entries previous p =
    let (next, found, p1) =
      >>=-eq-ok
        (ok_or (find_identity previous.identity.identity_id entries)
          "strict migration cannot remove an application")
        _ p in
    let (kept, p2) =
      >>-eq-ok
        (bail_if
          (not (same_action next.action previous.action)
            || not (same_target next.target_group previous.target_group)
            || not (
                eq_ignore_ascii_case next.identity.publisher_certificate_sha256
                  previous.identity.publisher_certificate_sha256))
          "strict migration cannot change action, target or publisher")
        _ p1 in
    let (action, target, publisher) = three _ _ _ (bail_if-eq-ok _ _ kept) in
    record {
      next = next;
      found = ok_or-eq_ok _ _ next found;
      action_kept = action;
      target_kept = target;
      publisher_kept = publisher;
      covered = all_retained next.identity (family previous.identity) (bail_if-eq-ok _ _ p2);
    }
  where
    three :
        (a b c : Bool) → (not a || not b || not c) ≡ false → (a ≡ true) × (b ≡ true) × (c ≡ true)
    three a b c q = (ground arith, ground arith, ground arith)

migrate_entries-AllGoOn :
    (entries olds : List StrictPolicyEntry)
    → migrate_entries entries olds ≡ ok tt
    → AllGoOn entries olds
unfolding migrate_entries
migrate_entries-AllGoOn entries [] p = tt
migrate_entries-AllGoOn entries (previous ∷ rest) p =
    let (first, p1) = >>-eq-ok (migrate_entry entries previous) _ p in
    (migrate_entry-GoesOn entries previous first, migrate_entries-AllGoOn entries rest p1)

pub record Migrates (old policy : StrictPolicyBundle) : Type 0 where
  pub advances : old.revision < policy.revision
  pub same_count : length policy.entries ≡ length old.entries
  pub retained : AllGoOn policy.entries old.entries

-- A migration that validates advances the revision and keeps the number of entries; each old
-- entry goes on in a new one that guards all its executables, under the same action, target group
-- and publisher.
pub validate_identity_migration→Migrates :
    (codec : Codec) (old policy : StrictPolicyBundle)
    → validate_identity_migration codec old policy ≡ ok tt
    → Migrates old policy
unfolding validate_identity_migration
validate_identity_migration→Migrates codec old policy p =
    let (_, p1) = >>-eq-ok (validate codec old) _ p in
    let (_, p2) = >>-eq-ok (validate codec policy) _ p1 in
    let (shape, p3) =
      >>-eq-ok
        (bail_if
          (leb policy.revision old.revision || not (length policy.entries == length old.entries))
          "strict migration must advance revision and retain application count")
        _ p2 in
    let (advances, same) = both _ _ _ _ (bail_if-eq-ok _ _ shape) in
    record {
      advances = advances;
      same_count = same;
      retained = migrate_entries-AllGoOn policy.entries old.entries p3;
    }
  where
    both : (r s m n : ℕ) → (leb r s || not (m == n)) ≡ false → (s < r) × (m ≡ n)
    both r s m n q = (ground arith, ground arith)
