-- ===== src/Tests/Progress.antt =====
-- The engine on the host in memory, from an engine that enforces nothing.
use freedom_cloud.Common.{refl, true, none}
use freedom_cloud.Action.{Post}
use freedom_cloud.Broker.Marker.{disabled, no_health}
use freedom_cloud.Broker.Engine.{Engine, prepare}
use freedom_cloud.Broker.Outcome.{Unprepared, Prepared, prepare-Post}
use freedom_cloud.Tests.Host.{toy_codec, no_filters, memory_host, browser_policy}

-- An engine that has loaded a store where revision 4 was used last.
abbrev idle_engine : Engine memory_host
idle_engine = record {
  backend = no_filters;
  store = record { high_watermark = 4; marker = none };
  verifier = tt;
  current_marker = none;
  high_watermark = 4;
  store_loaded = true;
  phase = disabled;
  forwarding_health = no_health;
  verification_lease = none;
}

prepare-Post_example :
    Post
      (λ _ e. Unprepared toy_codec memory_host (browser_policy 5) idle_engine e)
      (Prepared toy_codec memory_host (browser_policy 5) idle_engine)
      (prepare toy_codec memory_host (browser_policy 5) idle_engine)
prepare-Post_example = prepare-Post toy_codec memory_host (browser_policy 5) idle_engine refl refl
