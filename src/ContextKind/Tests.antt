-- ===== src/ContextKind/Tests.antt =====
-- The admission of concrete kinds.
use js_sdks.Common.{◌≡◌, refl, codes}
use js_sdks.ContextKind.{
  text, admitted, ignored, admit_context, is_accepted_kind, is_valid_context_kind,
  is_context_kind_character, string_form_of, first_characters_of,
}
use js_sdks.Telemetry.Utf8.{is_high_surrogate, is_low_surrogate}
use js_sdks.ContextKind.Admission.{IsAdmission, admit_context-IsAdmission}

device : admit_context (text (codes "my-device_2")) ≡ admitted
unfolding admit_context is_accepted_kind is_valid_context_kind is_context_kind_character
device = refl

capital : admit_context (text (codes "User")) ≡ ignored (codes "User")
unfolding admit_context is_accepted_kind is_valid_context_kind is_context_kind_character
    string_form_of first_characters_of is_high_surrogate is_low_surrogate
capital = refl

admit_context-IsAdmission_example :
    IsAdmission (text (codes "User")) (admit_context (text (codes "User")))
admit_context-IsAdmission_example = admit_context-IsAdmission (text (codes "User"))
