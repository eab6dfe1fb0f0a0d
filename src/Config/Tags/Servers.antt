-- ===== src/Config/Tags/Servers.antt =====
-- The tags of the settings of the metrics and of HTTP (internal/config/config.go).
use goshield_bootcamp.Config.Tags.{Value, word, flag, Members, find, word_of, flag_of}
use goshield_bootcamp.Config.Types.{MetricsConfig, HttpConfig}
use goshield_bootcamp.Base.{◌≡◌, refl, false, [], ◌∷◌}

module _ {ℓ} {F : Type ℓ} where
  unfoldable pub write_metrics : MetricsConfig → Members (Value F)
  write_metrics c =
      ("enabled", flag c.enabled)
      ∷ ("namespace", word c.namespace)
      ∷ ("endpoint", word c.endpoint)
      ∷ []

  unfoldable pub read_metrics : Members (Value F) → MetricsConfig → MetricsConfig
  read_metrics ms c = record {
    enabled = flag_of (find "enabled" ms) c.enabled;
    namespace = word_of (find "namespace" ms) c.namespace;
    endpoint = word_of (find "endpoint" ms) c.endpoint;
  }

  unfoldable pub write_http : HttpConfig → Members (Value F)
  write_http c =
      ("enabled", flag c.enabled)
      ∷ ("addr", word c.addr)
      ∷ ("metrics_addr", word c.metrics_addr)
      ∷ []

  unfoldable pub read_http : Members (Value F) → HttpConfig → HttpConfig
  read_http ms c = record {
    enabled = flag_of (find "enabled" ms) c.enabled;
    addr = word_of (find "addr" ms) c.addr;
    metrics_addr = word_of (find "metrics_addr" ms) c.metrics_addr;
  }

module _ {ℓ} (F : Type ℓ) where
  pub read-write_metrics :
      (c base : MetricsConfig) → read_metrics {F = F} (write_metrics c) base ≡ c
  unfolding read_metrics write_metrics
  read-write_metrics c base = refl

  pub read-write_http : (c base : HttpConfig) → read_http {F = F} (write_http c) base ≡ c
  unfolding read_http write_http
  read-write_http c base = refl

module _ {ℓ} {F : Type ℓ} (zero_float : F) where
  abbrev pub zero_metrics : MetricsConfig
  zero_metrics = record { enabled = false; namespace = ""; endpoint = "" }

  abbrev pub zero_http : HttpConfig
  zero_http = record { enabled = false; addr = ""; metrics_addr = "" }
