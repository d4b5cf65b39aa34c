-- ===== src/Client/Plan.antt =====
-- How the client connects and if it keeps values on the device:
-- packages/js-client-core/src/connection-plan.ts and `planCaching` of
-- packages/js-client-core/src/cached-values.ts
pub mod Keeping
use js_sdks.Common.{
  ◌≡◌, refl, sym, ◌∙◌, Bool, true, false, not, Option, none, some, [], ◌∷◌, Text, is_blank, is_some,
  if◌then◌else◌, Fallible, returns, throws, ◌>>=◌, or_option, arith, Bool-cases, Option-cases, inl,
  inr, returns-injective, >>=-eq-returns, ◌≢◌, ap, subst,
}

pub data LiveConnectionMode : Type 0 where
  streaming polling : LiveConnectionMode

-- `ConnectionMode`.
pub data Mode : Type 0 where
  live : LiveConnectionMode → Mode
  offline : Mode

-- `V` is the type of the values of the offline mode.
pub record ConnectionOptions (V : Type 0) : Type 0 where
  pub mode : Option Mode
  pub values : Option V
  pub url : Option Text

-- A message of a rejected source names the mode.
pub data OfflineSource (V : Type 0) : Type 0 where
  in_code_defaults : OfflineSource V
  offline_values : V → OfflineSource V
  rejected : LiveConnectionMode → OfflineSource V

-- `U` is the type of URLs.
pub data ConnectionPlan (V U : Type 0) : Type 0 where
  connect : LiveConnectionMode → Text → U → ConnectionPlan V U
  stay_offline : OfflineSource V → ConnectionPlan V U

module _ {V : Type 0} where
  abbrev pub no_options : ConnectionOptions V
  no_options = record { mode = none; values = none; url = none }

  abbrev pub source_of : Option V → OfflineSource V
  source_of none = in_code_defaults
  source_of (some values) = offline_values values

  unfoldable pub offline_source_of : ConnectionOptions V → OfflineSource V
  offline_source_of options = source_of options.values

abbrev pub live_mode : Option Mode → Option LiveConnectionMode
live_mode none = some streaming
live_mode (some (live mode)) = some mode
live_mode (some offline) = none

-- A key that is missing or blank is refused.
abbrev pub usable_key : Option Text → Fallible Text
usable_key none = throws
usable_key (some key) = if is_blank key then throws else returns key

-- `url_factory` throws on a text that is no URL; `default_url` is `CLIENT_BASE_URL`.
module _ {U : Type 0} (url_factory : Text → Fallible U) (default_url : U) where
  unfoldable pub base_url_of : Option Text → Fallible U
  base_url_of none = returns default_url
  base_url_of (some []) = returns default_url
  base_url_of (some (c ∷ url)) = url_factory (c ∷ url)

module _ {V U : Type 0} (url_factory : Text → Fallible U) (default_url : U) where
  abbrev pub plan_live :
      LiveConnectionMode → Option V → Option Text → Text → Fallible (ConnectionPlan V U)
  plan_live mode none url key =
      base_url_of url_factory default_url url >>= λ u. returns (connect mode key u)
  plan_live mode (some values) url key = returns (stay_offline (rejected mode))

  abbrev pub plan_mode :
      Option LiveConnectionMode → Option Text → ConnectionOptions V → Fallible (ConnectionPlan V U)
  plan_mode none key options = returns (stay_offline (offline_source_of options))
  plan_mode (some mode) key options =
      usable_key key >>= λ k. plan_live mode options.values options.url k

  -- Options that are missing are options that give nothing.
  unfoldable pub plan_connection : Option Text → ConnectionOptions V → Fallible (ConnectionPlan V U)
  unfolding offline_source_of base_url_of
  plan_connection key options = plan_mode (live_mode options.mode) key options

pub data NoCache : Type 0 where
  offline_mode turned_off no_digest no_provider : NoCache

-- `P` is the type of providers, and `D` the one of the promises of a digest.
pub data CachingPlan (P D : Type 0) : Type 0 where
  cache : P → D → CachingPlan P D
  no_cache : NoCache → CachingPlan P D

-- `CachingOptions`: `enabled` is false only where the option is.
pub record CachingOptions (P : Type 0) : Type 0 where
  pub enabled : Bool
  pub provider : Option P

module _ {P D : Type 0} where
  abbrev pub plan_provider : D → Option P → CachingPlan P D
  plan_provider digest none = no_cache no_provider
  plan_provider digest (some p) = cache p digest

  abbrev pub plan_digest :
      CachingOptions P → Text → Option (Text → D) → (D → Option P) → CachingPlan P D
  plan_digest caching key none platform = no_cache no_digest
  plan_digest caching key (some digest) platform =
      plan_provider (digest key) (or_option caching.provider (platform (digest key)))

  unfoldable pub plan_caching :
      {V U : Type 0}
      → ConnectionPlan V U
      → CachingOptions P
      → Option (Text → D)
      → (D → Option P)
      → CachingPlan P D
  plan_caching (stay_offline source) caching digest platform = no_cache offline_mode
  plan_caching (connect mode key url) caching digest platform =
      if not caching.enabled then no_cache turned_off else plan_digest caching key digest platform
