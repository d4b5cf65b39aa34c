-- ===== src/Client/CachedValues.antt =====
-- The values kept on the device: packages/js-client-core/src/cached-values.ts
use js_sdks.Common.{
  ℕ, Bool, true, false, Option, none, some, Text, codes, text_eq, if◌then◌else◌, not, ◌≡◌, ◌↔◌,
  arith,
}
use js_sdks.ContextKind.{Kind, not_given, text, other}
use js_sdks.Client.Types.{Context}

-- `ContextTag`: the kind of a context, with its id or the instance's.
pub data ContextTag : Type 0 where
  context_id anonymous_instance_id : Text → Text → ContextTag

pub record CachedValues (C : Type 0) : Type 0 where
  pub context_tag : ContextTag
  pub environment_id : Text
  pub project_id : Text
  pub configs : C
  pub received_at : ℕ

pub data Adoption : Type 0 where
  adopt live_values_already_arrived context_mismatch : Adoption

abbrev pub kind_or_default : Kind → Text
kind_or_default not_given = codes "user"
kind_or_default (text kind) = kind
kind_or_default (other form) = form

abbrev pub tag_of : Text → Option Text → Text → ContextTag
tag_of kind none instance_id = anonymous_instance_id kind instance_id
tag_of kind (some id) instance_id = context_id kind id

unfoldable pub context_tag_for : {F : Type 0} → Option (Context F) → Text → ContextTag
context_tag_for none instance_id = tag_of (codes "user") none instance_id
context_tag_for (some context) instance_id =
    tag_of (kind_or_default context.kind) context.id instance_id

unfoldable pub same_context_tag : ContextTag → ContextTag → Bool
same_context_tag (context_id kind id) (context_id launch_kind launch_id) =
    if not (text_eq kind launch_kind) then false else text_eq id launch_id
same_context_tag (anonymous_instance_id kind id) (anonymous_instance_id launch_kind launch_id) =
    if not (text_eq kind launch_kind) then false else text_eq id launch_id
same_context_tag stored launch = false

unfoldable pub decide_cached_values_adoption :
    {C : Type 0} → CachedValues C → ContextTag → Bool → Adoption
unfolding same_context_tag
decide_cached_values_adoption values launch has_received_live_values =
    if has_received_live_values
    then live_values_already_arrived
    else if not (same_context_tag values.context_tag launch)
    then context_mismatch
    else adopt

pub decide-adopt_iff :
    {C : Type 0} (values : CachedValues C) (launch : ContextTag) (received : Bool)
    → (decide_cached_values_adoption values launch received ≡ adopt)
      ↔ (received ≡ false × same_context_tag values.context_tag launch ≡ true)
unfolding decide_cached_values_adoption
decide-adopt_iff values launch received = ground arith
