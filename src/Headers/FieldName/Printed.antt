-- ===== src/Headers/FieldName/Printed.antt =====
-- `field_to_string` of web/restinio/restinio/http_headers.hpp: the names of RESTINIO_HTTP_FIELDS_MAP.
use prj.Prelude.{Bytes, [], codes}
use prj.Headers.FieldId.{HttpField}

unfoldable pub field_to_string : HttpField → Bytes
field_to_string HttpField.a_im = codes "A-IM"
field_to_string HttpField.accept = codes "Accept"
field_to_string HttpField.accept_additions = codes "Accept-Additions"
field_to_string HttpField.accept_charset = codes "Accept-Charset"
field_to_string HttpField.accept_datetime = codes "Accept-Datetime"
field_to_string HttpField.accept_encoding = codes "Accept-Encoding"
field_to_string HttpField.accept_features = codes "Accept-Features"
field_to_string HttpField.accept_language = codes "Accept-Language"
field_to_string HttpField.accept_patch = codes "Accept-Patch"
field_to_string HttpField.accept_post = codes "Accept-Post"
field_to_string HttpField.accept_ranges = codes "Accept-Ranges"
field_to_string HttpField.age = codes "Age"
field_to_string HttpField.allow = codes "Allow"
field_to_string HttpField.alpn = codes "ALPN"
field_to_string HttpField.alt_svc = codes "Alt-Svc"
field_to_string HttpField.alt_used = codes "Alt-Used"
field_to_string HttpField.alternates = codes "Alternates"
field_to_string HttpField.apply_to_redirect_ref = codes "Apply-To-Redirect-Ref"
field_to_string HttpField.authentication_control = codes "Authentication-Control"
field_to_string HttpField.authentication_info = codes "Authentication-Info"
field_to_string HttpField.authorization = codes "Authorization"
field_to_string HttpField.c_ext = codes "C-Ext"
field_to_string HttpField.c_man = codes "C-Man"
field_to_string HttpField.c_opt = codes "C-Opt"
field_to_string HttpField.c_pep = codes "C-PEP"
field_to_string HttpField.c_pep_info = codes "C-PEP-Info"
field_to_string HttpField.cache_control = codes "Cache-Control"
field_to_string HttpField.caldav_timezones = codes "CalDAV-Timezones"
field_to_string HttpField.close = codes "Close"
field_to_string HttpField.content_base = codes "Content-Base"
field_to_string HttpField.content_disposition = codes "Content-Disposition"
field_to_string HttpField.content_encoding = codes "Content-Encoding"
field_to_string HttpField.content_id = codes "Content-ID"
field_to_string HttpField.content_language = codes "Content-Language"
field_to_string HttpField.content_location = codes "Content-Location"
field_to_string HttpField.content_md5 = codes "Content-MD5"
field_to_string HttpField.content_range = codes "Content-Range"
field_to_string HttpField.content_script_type = codes "Content-Script-Type"
field_to_string HttpField.content_style_type = codes "Content-Style-Type"
field_to_string HttpField.content_type = codes "Content-Type"
field_to_string HttpField.content_version = codes "Content-Version"
field_to_string HttpField.cookie = codes "Cookie"
field_to_string HttpField.cookie2 = codes "Cookie2"
field_to_string HttpField.dasl = codes "DASL"
field_to_string HttpField.dav = codes "DAV"
field_to_string HttpField.date = codes "Date"
field_to_string HttpField.default_style = codes "Default-Style"
field_to_string HttpField.delta_base = codes "Delta-Base"
field_to_string HttpField.depth = codes "Depth"
field_to_string HttpField.derived_from = codes "Derived-From"
field_to_string HttpField.destination = codes "Destination"
field_to_string HttpField.differential_id = codes "Differential-ID"
field_to_string HttpField.digest = codes "Digest"
field_to_string HttpField.etag = codes "ETag"
field_to_string HttpField.expect = codes "Expect"
field_to_string HttpField.expires = codes "Expires"
field_to_string HttpField.ext = codes "Ext"
field_to_string HttpField.forwarded = codes "Forwarded"
field_to_string HttpField.from = codes "From"
field_to_string HttpField.getprofile = codes "GetProfile"
field_to_string HttpField.hobareg = codes "Hobareg"
field_to_string HttpField.host = codes "Host"
field_to_string HttpField.http2_settings = codes "HTTP2-Settings"
field_to_string HttpField.im = codes "IM"
field_to_string HttpField.if_ = codes "If"
field_to_string HttpField.if_match = codes "If-Match"
field_to_string HttpField.if_modified_since = codes "If-Modified-Since"
field_to_string HttpField.if_none_match = codes "If-None-Match"
field_to_string HttpField.if_range = codes "If-Range"
field_to_string HttpField.if_schedule_tag_match = codes "If-Schedule-Tag-Match"
field_to_string HttpField.if_unmodified_since = codes "If-Unmodified-Since"
field_to_string HttpField.keep_alive = codes "Keep-Alive"
field_to_string HttpField.label = codes "Label"
field_to_string HttpField.last_modified = codes "Last-Modified"
field_to_string HttpField.link = codes "Link"
field_to_string HttpField.location = codes "Location"
field_to_string HttpField.lock_token = codes "Lock-Token"
field_to_string HttpField.man = codes "Man"
field_to_string HttpField.max_forwards = codes "Max-Forwards"
field_to_string HttpField.memento_datetime = codes "Memento-Datetime"
field_to_string HttpField.meter = codes "Meter"
field_to_string HttpField.mime_version = codes "MIME-Version"
field_to_string HttpField.negotiate = codes "Negotiate"
field_to_string HttpField.opt = codes "Opt"
field_to_string HttpField.optional_www_authenticate = codes "Optional-WWW-Authenticate"
field_to_string HttpField.ordering_type = codes "Ordering-Type"
field_to_string HttpField.origin = codes "Origin"
field_to_string HttpField.overwrite = codes "Overwrite"
field_to_string HttpField.p3p = codes "P3P"
field_to_string HttpField.pep = codes "PEP"
field_to_string HttpField.pics_label = codes "PICS-Label"
field_to_string HttpField.pep_info = codes "Pep-Info"
field_to_string HttpField.position = codes "Position"
field_to_string HttpField.pragma = codes "Pragma"
field_to_string HttpField.prefer = codes "Prefer"
field_to_string HttpField.preference_applied = codes "Preference-Applied"
field_to_string HttpField.profileobject = codes "ProfileObject"
field_to_string HttpField.protocol = codes "Protocol"
field_to_string HttpField.protocol_info = codes "Protocol-Info"
field_to_string HttpField.protocol_query = codes "Protocol-Query"
field_to_string HttpField.protocol_request = codes "Protocol-Request"
field_to_string HttpField.proxy_authenticate = codes "Proxy-Authenticate"
field_to_string HttpField.proxy_authentication_info = codes "Proxy-Authentication-Info"
field_to_string HttpField.proxy_authorization = codes "Proxy-Authorization"
field_to_string HttpField.proxy_features = codes "Proxy-Features"
field_to_string HttpField.proxy_instruction = codes "Proxy-Instruction"
field_to_string HttpField.public_ = codes "Public"
field_to_string HttpField.public_key_pins = codes "Public-Key-Pins"
field_to_string HttpField.public_key_pins_report_only = codes "Public-Key-Pins-Report-Only"
field_to_string HttpField.range = codes "Range"
field_to_string HttpField.redirect_ref = codes "Redirect-Ref"
field_to_string HttpField.referer = codes "Referer"
field_to_string HttpField.retry_after = codes "Retry-After"
field_to_string HttpField.safe = codes "Safe"
field_to_string HttpField.schedule_reply = codes "Schedule-Reply"
field_to_string HttpField.schedule_tag = codes "Schedule-Tag"
field_to_string HttpField.sec_websocket_accept = codes "Sec-WebSocket-Accept"
field_to_string HttpField.sec_websocket_extensions = codes "Sec-WebSocket-Extensions"
field_to_string HttpField.sec_websocket_key = codes "Sec-WebSocket-Key"
field_to_string HttpField.sec_websocket_protocol = codes "Sec-WebSocket-Protocol"
field_to_string HttpField.sec_websocket_version = codes "Sec-WebSocket-Version"
field_to_string HttpField.security_scheme = codes "Security-Scheme"
field_to_string HttpField.server = codes "Server"
field_to_string HttpField.set_cookie = codes "Set-Cookie"
field_to_string HttpField.set_cookie2 = codes "Set-Cookie2"
field_to_string HttpField.setprofile = codes "SetProfile"
field_to_string HttpField.slug = codes "SLUG"
field_to_string HttpField.soapaction = codes "SoapAction"
field_to_string HttpField.status_uri = codes "Status-URI"
field_to_string HttpField.strict_transport_security = codes "Strict-Transport-Security"
field_to_string HttpField.surrogate_capability = codes "Surrogate-Capability"
field_to_string HttpField.surrogate_control = codes "Surrogate-Control"
field_to_string HttpField.tcn = codes "TCN"
field_to_string HttpField.te = codes "TE"
field_to_string HttpField.timeout = codes "Timeout"
field_to_string HttpField.topic = codes "Topic"
field_to_string HttpField.trailer = codes "Trailer"
field_to_string HttpField.transfer_encoding = codes "Transfer-Encoding"
field_to_string HttpField.ttl = codes "TTL"
field_to_string HttpField.urgency = codes "Urgency"
field_to_string HttpField.uri = codes "URI"
field_to_string HttpField.upgrade = codes "Upgrade"
field_to_string HttpField.user_agent = codes "User-Agent"
field_to_string HttpField.variant_vary = codes "Variant-Vary"
field_to_string HttpField.vary = codes "Vary"
field_to_string HttpField.via = codes "Via"
field_to_string HttpField.www_authenticate = codes "WWW-Authenticate"
field_to_string HttpField.want_digest = codes "Want-Digest"
field_to_string HttpField.warning = codes "Warning"
field_to_string HttpField.x_frame_options = codes "X-Frame-Options"
field_to_string HttpField.access_control = codes "Access-Control"
field_to_string HttpField.access_control_allow_credentials =
    codes "Access-Control-Allow-Credentials"
field_to_string HttpField.access_control_allow_headers = codes "Access-Control-Allow-Headers"
field_to_string HttpField.access_control_allow_methods = codes "Access-Control-Allow-Methods"
field_to_string HttpField.access_control_allow_origin = codes "Access-Control-Allow-Origin"
field_to_string HttpField.access_control_max_age = codes "Access-Control-Max-Age"
field_to_string HttpField.access_control_request_method = codes "Access-Control-Request-Method"
field_to_string HttpField.access_control_request_headers = codes "Access-Control-Request-Headers"
field_to_string HttpField.compliance = codes "Compliance"
field_to_string HttpField.content_transfer_encoding = codes "Content-Transfer-Encoding"
field_to_string HttpField.cost = codes "Cost"
field_to_string HttpField.ediint_features = codes "EDIINT-Features"
field_to_string HttpField.message_id = codes "Message-ID"
field_to_string HttpField.method_check = codes "Method-Check"
field_to_string HttpField.method_check_expires = codes "Method-Check-Expires"
field_to_string HttpField.non_compliance = codes "Non-Compliance"
field_to_string HttpField.optional = codes "Optional"
field_to_string HttpField.referer_root = codes "Referer-Root"
field_to_string HttpField.resolution_hint = codes "Resolution-Hint"
field_to_string HttpField.resolver_location = codes "Resolver-Location"
field_to_string HttpField.subok = codes "SubOK"
field_to_string HttpField.subst = codes "Subst"
field_to_string HttpField.title = codes "Title"
field_to_string HttpField.ua_color = codes "UA-Color"
field_to_string HttpField.ua_media = codes "UA-Media"
field_to_string HttpField.ua_pixels = codes "UA-Pixels"
field_to_string HttpField.ua_resolution = codes "UA-Resolution"
field_to_string HttpField.ua_windowpixels = codes "UA-Windowpixels"
field_to_string HttpField.version = codes "Version"
field_to_string HttpField.x_device_accept = codes "X-Device-Accept"
field_to_string HttpField.x_device_accept_charset = codes "X-Device-Accept-Charset"
field_to_string HttpField.x_device_accept_encoding = codes "X-Device-Accept-Encoding"
field_to_string HttpField.x_device_accept_language = codes "X-Device-Accept-Language"
field_to_string HttpField.x_device_user_agent = codes "X-Device-User-Agent"
field_to_string HttpField.field_unspecified = []
