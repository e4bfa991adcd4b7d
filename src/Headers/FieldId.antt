-- ===== src/Headers/FieldId.antt =====
-- The enumeration `http_field_t` of web/restinio/restinio/http_headers.hpp, and its comparison.
use mathlib.Core.Path.{◌≡◌, refl}
use mathlib.Core.Logic.{◌↔◌}
use mathlib.Core.Bool.{Bool, true, false}
use mathlib.Core.HLevel.{Discrete}

pub data HttpField : Type 0 where
  a_im accept accept_additions accept_charset accept_datetime accept_encoding : HttpField
  accept_features accept_language accept_patch accept_post accept_ranges age allow alpn : HttpField
  alt_svc alt_used alternates apply_to_redirect_ref authentication_control : HttpField
  authentication_info authorization c_ext c_man c_opt c_pep c_pep_info cache_control : HttpField
  caldav_timezones close content_base content_disposition content_encoding content_id : HttpField
  content_language content_location content_md5 content_range content_script_type : HttpField
  content_style_type content_type content_version cookie cookie2 dasl dav date : HttpField
  default_style delta_base depth derived_from destination differential_id digest etag : HttpField
  expect expires ext forwarded from getprofile hobareg host http2_settings im if_ : HttpField
  if_match if_modified_since if_none_match if_range if_schedule_tag_match : HttpField
  if_unmodified_since keep_alive label last_modified link location lock_token man : HttpField
  max_forwards memento_datetime meter mime_version negotiate opt : HttpField
  optional_www_authenticate ordering_type origin overwrite p3p pep pics_label pep_info : HttpField
  position pragma prefer preference_applied profileobject protocol protocol_info : HttpField
  protocol_query protocol_request proxy_authenticate proxy_authentication_info : HttpField
  proxy_authorization proxy_features proxy_instruction public_ public_key_pins : HttpField
  public_key_pins_report_only range redirect_ref referer retry_after safe : HttpField
  schedule_reply schedule_tag sec_websocket_accept sec_websocket_extensions : HttpField
  sec_websocket_key sec_websocket_protocol sec_websocket_version security_scheme server : HttpField
  set_cookie set_cookie2 setprofile slug soapaction status_uri : HttpField
  strict_transport_security surrogate_capability surrogate_control tcn te timeout topic : HttpField
  trailer transfer_encoding ttl urgency uri upgrade user_agent variant_vary vary via : HttpField
  www_authenticate want_digest warning x_frame_options access_control : HttpField
  access_control_allow_credentials access_control_allow_headers : HttpField
  access_control_allow_methods access_control_allow_origin access_control_max_age : HttpField
  access_control_request_method access_control_request_headers compliance : HttpField
  content_transfer_encoding cost ediint_features message_id method_check : HttpField
  method_check_expires non_compliance optional referer_root resolution_hint : HttpField
  resolver_location subok subst title ua_color ua_media ua_pixels ua_resolution : HttpField
  ua_windowpixels version x_device_accept x_device_accept_charset : HttpField
  x_device_accept_encoding x_device_accept_language x_device_user_agent : HttpField
  field_unspecified : HttpField

unfoldable pub HttpField-discrete : Discrete HttpField
HttpField-discrete = hlevel

-- `operator ==` of the enumeration.
unfoldable pub same_field : HttpField → HttpField → Bool
unfolding HttpField-discrete
same_field f g = elim (HttpField-discrete f g) [ yes _ ↦ true | no _ ↦ false ]

pub eq_of_same_field : (f g : HttpField) → same_field f g ≡ true → f ≡ g
unfolding same_field
eq_of_same_field f g =
    elim (HttpField-discrete f g)
      as (λ d. (elim d [ yes _ ↦ true | no _ ↦ false ]) ≡ true → f ≡ g) [
        | yes e ↦ λ _. e
        | no _ ↦ λ h. cc
      ]

pub same_field_self : (f : HttpField) → same_field f f ≡ true
unfolding same_field
same_field_self f =
    elim (HttpField-discrete f f) as (λ d. (elim d [ yes _ ↦ true | no _ ↦ false ]) ≡ true) [
      | yes e ↦ refl
      | no n ↦ absurd (n refl)
    ]

pub same_field_iff : (f g : HttpField) → (same_field f g ≡ true) ↔ (f ≡ g)
same_field_iff f g = (eq_of_same_field f g, λ e. rw e (same_field_self g))
