-- ===== src/Headers/FieldName/Candidates.antt =====
-- The cases of the switch in `string_to_field` of web/restinio/restinio/http_headers.hpp.
use prj.Prelude.{ℕ, Bytes, List, [], ◌∷◌, codes, ◌==◌, if◌then◌else◌}
use prj.Headers.FieldId.{HttpField}

-- The cases for sizes 18 to 32.
unfoldable pub candidates_of_18_to_32 : ℕ → List (HttpField × Bytes)
candidates_of_18_to_32 size =
    if size == 18
    then (HttpField.content_style_type, codes "Content-Style-Type")
      ∷ (HttpField.preference_applied, codes "Preference-Applied")
      ∷ (HttpField.proxy_authenticate, codes "Proxy-Authenticate")
      ∷ []
    else if size == 19
    then (HttpField.authentication_info, codes "Authentication-Info")
      ∷ (HttpField.content_disposition, codes "Content-Disposition")
      ∷ (HttpField.content_script_type, codes "Content-Script-Type")
      ∷ (HttpField.if_unmodified_since, codes "If-Unmodified-Since")
      ∷ (HttpField.proxy_authorization, codes "Proxy-Authorization")
      ∷ (HttpField.x_device_user_agent, codes "X-Device-User-Agent")
      ∷ []
    else if size == 20
    then (HttpField.sec_websocket_accept, codes "Sec-WebSocket-Accept")
      ∷ (HttpField.surrogate_capability, codes "Surrogate-Capability")
      ∷ (HttpField.method_check_expires, codes "Method-Check-Expires")
      ∷ []
    else if size == 21
    then (HttpField.apply_to_redirect_ref, codes "Apply-To-Redirect-Ref")
      ∷ (HttpField.if_schedule_tag_match, codes "If-Schedule-Tag-Match")
      ∷ (HttpField.sec_websocket_version, codes "Sec-WebSocket-Version")
      ∷ []
    else if size == 22
    then (HttpField.authentication_control, codes "Authentication-Control")
      ∷ (HttpField.sec_websocket_protocol, codes "Sec-WebSocket-Protocol")
      ∷ (HttpField.access_control_max_age, codes "Access-Control-Max-Age")
      ∷ []
    else if size == 23
    then (HttpField.x_device_accept_charset, codes "X-Device-Accept-Charset") ∷ []
    else if size == 24
    then (HttpField.sec_websocket_extensions, codes "Sec-WebSocket-Extensions")
      ∷ (HttpField.x_device_accept_encoding, codes "X-Device-Accept-Encoding")
      ∷ (HttpField.x_device_accept_language, codes "X-Device-Accept-Language")
      ∷ []
    else if size == 25
    then (HttpField.optional_www_authenticate, codes "Optional-WWW-Authenticate")
      ∷ (HttpField.proxy_authentication_info, codes "Proxy-Authentication-Info")
      ∷ (HttpField.strict_transport_security, codes "Strict-Transport-Security")
      ∷ (HttpField.content_transfer_encoding, codes "Content-Transfer-Encoding")
      ∷ []
    else if size == 27
    then (HttpField.public_key_pins_report_only, codes "Public-Key-Pins-Report-Only")
      ∷ (HttpField.access_control_allow_origin, codes "Access-Control-Allow-Origin")
      ∷ []
    else if size == 28
    then (HttpField.access_control_allow_headers, codes "Access-Control-Allow-Headers")
      ∷ (HttpField.access_control_allow_methods, codes "Access-Control-Allow-Methods")
      ∷ []
    else if size == 29
    then (HttpField.access_control_request_method, codes "Access-Control-Request-Method") ∷ []
    else if size == 30
    then (HttpField.access_control_request_headers, codes "Access-Control-Request-Headers") ∷ []
    else if size == 32
    then (HttpField.access_control_allow_credentials, codes "Access-Control-Allow-Credentials") ∷ []
    else []

-- The cases for sizes 14 to 17.
unfoldable pub candidates_of_14_to_17 : ℕ → List (HttpField × Bytes)
unfolding candidates_of_18_to_32
candidates_of_14_to_17 size =
    if size == 14
    then (HttpField.accept_charset, codes "Accept-Charset")
      ∷ (HttpField.http2_settings, codes "HTTP2-Settings")
      ∷ (HttpField.protocol_query, codes "Protocol-Query")
      ∷ (HttpField.proxy_features, codes "Proxy-Features")
      ∷ (HttpField.schedule_reply, codes "Schedule-Reply")
      ∷ (HttpField.non_compliance, codes "Non-Compliance")
      ∷ (HttpField.access_control, codes "Access-Control")
      ∷ []
    else if size == 15
    then (HttpField.accept_encoding, codes "Accept-Encoding")
      ∷ (HttpField.accept_features, codes "Accept-Features")
      ∷ (HttpField.accept_language, codes "Accept-Language")
      ∷ (HttpField.accept_datetime, codes "Accept-Datetime")
      ∷ (HttpField.content_version, codes "Content-Version")
      ∷ (HttpField.differential_id, codes "Differential-ID")
      ∷ (HttpField.public_key_pins, codes "Public-Key-Pins")
      ∷ (HttpField.security_scheme, codes "Security-Scheme")
      ∷ (HttpField.x_frame_options, codes "X-Frame-Options")
      ∷ (HttpField.x_device_accept, codes "X-Device-Accept")
      ∷ (HttpField.resolution_hint, codes "Resolution-Hint")
      ∷ (HttpField.ediint_features, codes "EDIINT-Features")
      ∷ (HttpField.ua_windowpixels, codes "UA-Windowpixels")
      ∷ []
    else if size == 16
    then (HttpField.accept_additions, codes "Accept-Additions")
      ∷ (HttpField.caldav_timezones, codes "CalDAV-Timezones")
      ∷ (HttpField.content_encoding, codes "Content-Encoding")
      ∷ (HttpField.content_language, codes "Content-Language")
      ∷ (HttpField.content_location, codes "Content-Location")
      ∷ (HttpField.memento_datetime, codes "Memento-Datetime")
      ∷ (HttpField.protocol_request, codes "Protocol-Request")
      ∷ (HttpField.www_authenticate, codes "WWW-Authenticate")
      ∷ []
    else if size == 17
    then (HttpField.if_modified_since, codes "If-Modified-Since")
      ∷ (HttpField.proxy_instruction, codes "Proxy-Instruction")
      ∷ (HttpField.sec_websocket_key, codes "Sec-WebSocket-Key")
      ∷ (HttpField.surrogate_control, codes "Surrogate-Control")
      ∷ (HttpField.transfer_encoding, codes "Transfer-Encoding")
      ∷ (HttpField.resolver_location, codes "Resolver-Location")
      ∷ []
    else candidates_of_18_to_32 size

-- The cases for sizes 10 to 13.
unfoldable pub candidates_of_10_to_13 : ℕ → List (HttpField × Bytes)
unfolding candidates_of_14_to_17
candidates_of_10_to_13 size =
    if size == 10
    then (HttpField.alternates, codes "Alternates")
      ∷ (HttpField.c_pep_info, codes "C-PEP-Info")
      ∷ (HttpField.content_id, codes "Content-ID")
      ∷ (HttpField.delta_base, codes "Delta-Base")
      ∷ (HttpField.getprofile, codes "GetProfile")
      ∷ (HttpField.keep_alive, codes "Keep-Alive")
      ∷ (HttpField.lock_token, codes "Lock-Token")
      ∷ (HttpField.pics_label, codes "PICS-Label")
      ∷ (HttpField.set_cookie, codes "Set-Cookie")
      ∷ (HttpField.setprofile, codes "SetProfile")
      ∷ (HttpField.soapaction, codes "SoapAction")
      ∷ (HttpField.status_uri, codes "Status-URI")
      ∷ (HttpField.user_agent, codes "User-Agent")
      ∷ (HttpField.compliance, codes "Compliance")
      ∷ (HttpField.message_id, codes "Message-ID")
      ∷ []
    else if size == 11
    then (HttpField.accept_post, codes "Accept-Post")
      ∷ (HttpField.content_md5, codes "Content-MD5")
      ∷ (HttpField.destination, codes "Destination")
      ∷ (HttpField.retry_after, codes "Retry-After")
      ∷ (HttpField.set_cookie2, codes "Set-Cookie2")
      ∷ (HttpField.want_digest, codes "Want-Digest")
      ∷ []
    else if size == 12
    then (HttpField.content_type, codes "Content-Type")
      ∷ (HttpField.accept_patch, codes "Accept-Patch")
      ∷ (HttpField.content_base, codes "Content-Base")
      ∷ (HttpField.derived_from, codes "Derived-From")
      ∷ (HttpField.max_forwards, codes "Max-Forwards")
      ∷ (HttpField.mime_version, codes "MIME-Version")
      ∷ (HttpField.schedule_tag, codes "Schedule-Tag")
      ∷ (HttpField.redirect_ref, codes "Redirect-Ref")
      ∷ (HttpField.variant_vary, codes "Variant-Vary")
      ∷ (HttpField.method_check, codes "Method-Check")
      ∷ (HttpField.referer_root, codes "Referer-Root")
      ∷ []
    else if size == 13
    then (HttpField.accept_ranges, codes "Accept-Ranges")
      ∷ (HttpField.authorization, codes "Authorization")
      ∷ (HttpField.cache_control, codes "Cache-Control")
      ∷ (HttpField.content_range, codes "Content-Range")
      ∷ (HttpField.default_style, codes "Default-Style")
      ∷ (HttpField.if_none_match, codes "If-None-Match")
      ∷ (HttpField.last_modified, codes "Last-Modified")
      ∷ (HttpField.ordering_type, codes "Ordering-Type")
      ∷ (HttpField.profileobject, codes "ProfileObject")
      ∷ (HttpField.protocol_info, codes "Protocol-Info")
      ∷ (HttpField.ua_resolution, codes "UA-Resolution")
      ∷ []
    else candidates_of_14_to_17 size

-- The cases for sizes 2 to 9.
unfoldable pub candidates_of_2_to_9 : ℕ → List (HttpField × Bytes)
unfolding candidates_of_10_to_13
candidates_of_2_to_9 size =
    if size == 2
    then (HttpField.if_, codes "If") ∷ (HttpField.im, codes "IM") ∷ (HttpField.te, codes "TE") ∷ []
    else if size == 3
    then (HttpField.age, codes "Age")
      ∷ (HttpField.dav, codes "DAV")
      ∷ (HttpField.ext, codes "Ext")
      ∷ (HttpField.man, codes "Man")
      ∷ (HttpField.opt, codes "Opt")
      ∷ (HttpField.p3p, codes "P3P")
      ∷ (HttpField.pep, codes "PEP")
      ∷ (HttpField.tcn, codes "TCN")
      ∷ (HttpField.ttl, codes "TTL")
      ∷ (HttpField.uri, codes "URI")
      ∷ (HttpField.via, codes "Via")
      ∷ []
    else if size == 4
    then (HttpField.host, codes "Host")
      ∷ (HttpField.a_im, codes "A-IM")
      ∷ (HttpField.alpn, codes "ALPN")
      ∷ (HttpField.dasl, codes "DASL")
      ∷ (HttpField.date, codes "Date")
      ∷ (HttpField.etag, codes "ETag")
      ∷ (HttpField.from, codes "From")
      ∷ (HttpField.link, codes "Link")
      ∷ (HttpField.safe, codes "Safe")
      ∷ (HttpField.slug, codes "SLUG")
      ∷ (HttpField.vary, codes "Vary")
      ∷ (HttpField.cost, codes "Cost")
      ∷ []
    else if size == 5
    then (HttpField.allow, codes "Allow")
      ∷ (HttpField.c_ext, codes "C-Ext")
      ∷ (HttpField.c_man, codes "C-Man")
      ∷ (HttpField.c_opt, codes "C-Opt")
      ∷ (HttpField.c_pep, codes "C-PEP")
      ∷ (HttpField.close, codes "Close")
      ∷ (HttpField.depth, codes "Depth")
      ∷ (HttpField.label, codes "Label")
      ∷ (HttpField.meter, codes "Meter")
      ∷ (HttpField.range, codes "Range")
      ∷ (HttpField.topic, codes "Topic")
      ∷ (HttpField.subok, codes "SubOK")
      ∷ (HttpField.subst, codes "Subst")
      ∷ (HttpField.title, codes "Title")
      ∷ []
    else if size == 6
    then (HttpField.accept, codes "Accept")
      ∷ (HttpField.cookie, codes "Cookie")
      ∷ (HttpField.server, codes "Server")
      ∷ (HttpField.digest, codes "Digest")
      ∷ (HttpField.expect, codes "Expect")
      ∷ (HttpField.origin, codes "Origin")
      ∷ (HttpField.pragma, codes "Pragma")
      ∷ (HttpField.prefer, codes "Prefer")
      ∷ (HttpField.public_, codes "Public")
      ∷ []
    else if size == 7
    then (HttpField.alt_svc, codes "Alt-Svc")
      ∷ (HttpField.cookie2, codes "Cookie2")
      ∷ (HttpField.expires, codes "Expires")
      ∷ (HttpField.hobareg, codes "Hobareg")
      ∷ (HttpField.referer, codes "Referer")
      ∷ (HttpField.timeout, codes "Timeout")
      ∷ (HttpField.trailer, codes "Trailer")
      ∷ (HttpField.urgency, codes "Urgency")
      ∷ (HttpField.upgrade, codes "Upgrade")
      ∷ (HttpField.warning, codes "Warning")
      ∷ (HttpField.version, codes "Version")
      ∷ []
    else if size == 8
    then (HttpField.alt_used, codes "Alt-Used")
      ∷ (HttpField.if_match, codes "If-Match")
      ∷ (HttpField.if_range, codes "If-Range")
      ∷ (HttpField.location, codes "Location")
      ∷ (HttpField.pep_info, codes "Pep-Info")
      ∷ (HttpField.position, codes "Position")
      ∷ (HttpField.protocol, codes "Protocol")
      ∷ (HttpField.optional, codes "Optional")
      ∷ (HttpField.ua_color, codes "UA-Color")
      ∷ (HttpField.ua_media, codes "UA-Media")
      ∷ []
    else if size == 9
    then (HttpField.forwarded, codes "Forwarded")
      ∷ (HttpField.negotiate, codes "Negotiate")
      ∷ (HttpField.overwrite, codes "Overwrite")
      ∷ (HttpField.ua_pixels, codes "UA-Pixels")
      ∷ []
    else candidates_of_10_to_13 size

unfoldable pub candidates : ℕ → List (HttpField × Bytes)
unfolding candidates_of_2_to_9
candidates size = candidates_of_2_to_9 size
