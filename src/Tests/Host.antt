-- ===== src/Tests/Host.antt =====
-- A small host: filters in memory, a store of one record, and a verifier that trusts the policy.
use freedom_cloud.Common.{
  ℕ, suc, Bool, true, false, Option, none, some, [], ◌∷◌, map, replicate, length,
}
use freedom_cloud.Fallible.{ok}
use freedom_cloud.Text.{Text, codes}
use freedom_cloud.Contract.Capability.{Capabilities}
use freedom_cloud.Contract.Policy.{StrictIdentity, StrictPolicyEntry, StrictPolicyBundle, proxy}
use freedom_cloud.Contract.Codec.{Codec}
use freedom_cloud.Broker.AppIds.{VerifiedApplicationAppIds}
use freedom_cloud.Broker.Marker.{RecoveryRecord, ForwardingHealth}
use freedom_cloud.Broker.Host.{Host, FilterBackend, RecoveryStore, IdentityVerifier}

pub record Filters : Type 0 where
  pub owner : Option (ℕ × Text)
  pub generation : ℕ
  pub guards : Bool
  pub data_plane : Bool

abbrev pub no_filters : Filters
no_filters = record { owner = none; generation = 0; guards = false; data_plane = false }

abbrev pub all_capabilities : Capabilities
all_capabilities c = true

abbrev pub owner_revision : Option (ℕ × Text) → Option ℕ
owner_revision none = none
owner_revision (some (revision, digest)) = some revision

abbrev pub owner_digest : Option (ℕ × Text) → Option Text
owner_digest none = none
owner_digest (some (revision, digest)) = some digest

abbrev pub memory_backend : FilterBackend Filters
memory_backend = record {
  install_guards = λ policy ids digest b. (
    ok tt,
    record {
      owner = some (policy.revision, digest);
      generation = suc b.generation;
      guards = true;
      data_plane = false;
    },
  );
  install_data_plane =
      λ policy ids digest b. (ok tt, record b { generation = suc b.generation; data_plane = true });
  remove_data_plane = λ b. (ok tt, record b { data_plane = false });
  remove_guards = λ b. (ok tt, record b { owner = none; guards = false });
  snapshot = λ b. (
    ok (record {
      revision = owner_revision b.owner;
      policy_digest = owner_digest b.owner;
      filter_generation = b.generation;
      guard_filters_installed = b.guards;
      data_plane_filters_installed = b.data_plane;
      capabilities = all_capabilities;
    }),
    b,
  );
}

abbrev pub memory_store : RecoveryStore RecoveryRecord
memory_store = record {
  load = λ s. (ok s, s);
  persist = λ marker s. (ok tt, record { high_watermark = marker.revision; marker = some marker });
  clear_marker = λ s. (ok tt, record s { marker = none });
}

abbrev pub application_of : StrictPolicyEntry → VerifiedApplicationAppIds
application_of entry = record { identity_id = entry.identity.identity_id; app_ids = (1 ∷ []) ∷ [] }

abbrev pub trusting_verifier : IdentityVerifier Unit Unit
trusting_verifier = record {
  verify = λ policy v. (
    ok (record {
      app_ids = record {
        applications = map application_of policy.entries;
        app_id_count = length policy.entries;
      };
      lease = tt;
    }),
    v,
  );
}

abbrev pub memory_host : Host
memory_host = record {
  Backend = Filters;
  Store = RecoveryRecord;
  Verifier = Unit;
  Lease = Unit;
  backend = memory_backend;
  store = memory_store;
  verifier = trusting_verifier;
}

abbrev pub empty_store : RecoveryRecord
empty_store = record { high_watermark = 0; marker = none }

-- A digest of one value, and policies that encode to one byte.
abbrev pub toy_codec : Codec
toy_codec = record { sha256 = λ bs. replicate 32 17; policy_to_vec = λ policy. ok (1 ∷ []) }

abbrev pub ones_digest : Text
ones_digest = replicate 64 b'1'

abbrev pub browser : StrictIdentity
browser = record {
  identity_id = codes "0f8fad5b-d9cb-469f-a165-70867728950e";
  canonical_path = codes "C:\\apps\\browser.exe";
  wfp_app_id_sha256 = replicate 64 b'a';
  publisher_certificate_sha256 = replicate 64 b'b';
  verified_children = [];
}

abbrev pub browser_policy : ℕ → StrictPolicyBundle
browser_policy revision = record {
  protocol = 2;
  revision = revision;
  entries = record { identity = browser; action = proxy; target_group = some (codes "proxy") } ∷ [];
}

abbrev pub full_health : ForwardingHealth
full_health = record {
  core_healthy = true;
  relay_healthy = true;
  dns_healthy = true;
  capabilities = all_capabilities;
}
