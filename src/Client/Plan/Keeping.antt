-- ===== src/Client/Plan/Keeping.antt =====
-- Which clients keep values on the device.
use js_sdks.Common.{
  ◌≡◌, refl, sym, ◌∙◌, Bool, true, false, not, Option, none, some, Text, is_blank, if◌then◌else◌,
  Fallible, returns, throws, Option-cases, inl, inr, returns-injective, >>=-eq-returns, ◌≢◌, ap,
  subst,
}
use js_sdks.Client.Plan.{
  LiveConnectionMode, Mode, live, offline, ConnectionOptions, ConnectionPlan, connect, stay_offline,
  live_mode, usable_key, offline_source_of, base_url_of, plan_live, plan_mode, plan_connection,
  turned_off, CachingPlan, cache, no_cache, CachingOptions, plan_provider, plan_digest,
  plan_caching,
}

refused_or_returned :
    (refused : Bool) (key k : Text)
    → (if refused then throws else returns key) ≡ returns k
    → (key ≡ k) × (refused ≡ false)
refused_or_returned true key k h = cc
refused_or_returned false key k h = (returns-injective key k h, refl)

usable_key-returns :
    (key : Option Text) (k : Text)
    → usable_key key ≡ returns k
    → (key ≡ some k) × (is_blank k ≡ false)
usable_key-returns none k h = cc
usable_key-returns (some key) k h =
    let (e, usable) = refused_or_returned (is_blank key) key k h in
    (ap (λ s. some s) e, subst (λ s. is_blank s ≡ false) e usable)

mode_of_live :
    (mode : Option Mode) (m : LiveConnectionMode) → live_mode mode ≡ some m → mode ≢ some offline
mode_of_live none m h e = cc
mode_of_live (some (live mode)) m h e = cc
mode_of_live (some offline) m h e = cc

module _ {V U : Type 0} (url_factory : Text → Fallible U) (default_url : U) where
  plan_live-connect :
      (mode : LiveConnectionMode) (values : Option V) (url : Option Text) (key : Text)
      (m : LiveConnectionMode) (k : Text) (u : U)
      → plan_live url_factory default_url mode values url key ≡ returns (connect m k u)
      → (key ≡ k) × (values ≡ none)
  plan_live-connect mode none url key m k u h =
      let (v, _, e) = >>=-eq-returns (base_url_of url_factory default_url url) _ h in
      let e : connect mode key v ≡ connect m k u = returns-injective _ _ e in (cc, refl)
  plan_live-connect mode (some values) url key m k u h = cc

  -- A plan to connect has the key that the client was given, which is not blank, and comes of options
  -- with a live mode and no values for the offline mode.
  pub plan_connection-connect :
      (key : Option Text) (options : ConnectionOptions V) (mode : LiveConnectionMode) (k : Text)
      (u : U)
      → plan_connection url_factory default_url key options ≡ returns (connect mode k u)
      → (key ≡ some k)
        × (is_blank k ≡ false)
        × (options.values ≡ none)
        × (options.mode ≢ some offline)
  unfolding plan_connection
  plan_connection-connect key options mode k u h = elim (Option-cases (live_mode options.mode)) [
    | inl not_live ↦
        (let e : returns (stay_offline (offline_source_of options)) ≡ returns (connect mode k u) =
            sym (ap (λ m. plan_mode url_factory default_url m key options) not_live) ∙ h in
          cc)
    | inr (m, is_live) ↦
        (let (s, found, e) =
            >>=-eq-returns (usable_key key) _
              (sym (ap (λ m. plan_mode url_factory default_url m key options) is_live) ∙ h) in
          let (same, none_given) = plan_live-connect m options.values options.url s mode k u e in
          let (given, usable) = usable_key-returns key s found in
          (
            given ∙ ap (λ t. some t) same,
            subst (λ t. is_blank t ≡ false) same usable,
            none_given,
            mode_of_live options.mode m is_live,
          ))
  ]

module _ {P D : Type 0} where
  plan_provider-cache :
      (digest : D) (provider : Option P) (p : P) (d : D)
      → plan_provider digest provider ≡ cache p d
      → digest ≡ d
  plan_provider-cache digest none p d h = cc
  plan_provider-cache digest (some q) p d h = cc

  plan_digest-cache :
      (caching : CachingOptions P) (key : Text) (digest : Option (Text → D))
      (platform : D → Option P) (p : P) (d : D)
      → plan_digest caching key digest platform ≡ cache p d
      → (f : Text → D) × (digest ≡ some f) × (d ≡ f key)
  plan_digest-cache caching key none platform p d h = cc
  plan_digest-cache caching key (some f) platform p d h =
      (f, refl, sym (plan_provider-cache (f key) _ p d h))

  enabled_of_cache :
      (disabled : Bool) (plan : CachingPlan P D) (p : P) (d : D)
      → (if disabled then no_cache turned_off else plan) ≡ cache p d
      → (disabled ≡ false) × (plan ≡ cache p d)
  enabled_of_cache true plan p d h = cc
  enabled_of_cache false plan p d h = (refl, h)

module _ {V U P D : Type 0} (url_factory : Text → Fallible U) (default_url : U) where
  -- A client keeps values on the device only if caching is not turned off and its plan is to connect
  -- with the key it was given, which is not blank; its entries then carry the digest of this key.
  pub plan_caching-cache :
      (key : Option Text) (options : ConnectionOptions V) (plan : ConnectionPlan V U)
      (caching : CachingOptions P) (digest : Option (Text → D)) (platform : D → Option P) (p : P)
      (d : D)
      → plan_connection url_factory default_url key options ≡ returns plan
      → plan_caching plan caching digest platform ≡ cache p d
      → (k : Text) × (f : Text → D) × (key ≡ some k)
        × (is_blank k ≡ false)
        × (digest ≡ some f)
        × (d ≡ f k)
        × (not caching.enabled ≡ false)
  unfolding plan_caching
  plan_caching-cache key options (stay_offline source) caching digest platform p d planned h = cc
  plan_caching-cache key options (connect mode k u) caching digest platform p d planned h =
      let (given, usable, _, _) =
        plan_connection-connect url_factory default_url key options mode k u planned in
      let (enabled, chosen) = enabled_of_cache (not caching.enabled) _ p d h in
      let (f, found, e) = plan_digest-cache caching k digest platform p d chosen in
      (k, f, given, usable, found, e, enabled)
