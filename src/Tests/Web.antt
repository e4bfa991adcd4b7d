-- ===== src/Tests/Web.antt =====
-- Instances of the theorems on responses, method matchers, parameters and texts.
use prj.Prelude.{ℕ, ◌≡◌, ◌↔◌, inl, true, some, [], ◌∷◌, codes, arith}
use prj.Prelude.Outcome.{ok, undefined}
use prj.Headers.Message.{status_ok}
use prj.Response.{create_response}
use prj.Response.Sizes.{sets, appends, build, Sends, done-build}
use prj.MethodMatcher.{
  Matcher, simple, fixed_size_none_of, match, null, http_method_get, http_method_put,
}
use prj.MethodMatcher.Matching.{Allows, match_iff}
use prj.MethodMatcher.Holding.{
  assigns, moves, moves_empty, relocates, asks, lifetime, lifetime-expected, expected,
}
use prj.RouteParams.{RouteParams}
use prj.Utf8Checker.{fresh, valid}
use prj.Utf8Checker.Decoding.{run, encode, at, run-encode}
use prj.Uri.{normalize_to, target_path, unescape_percent_encoding, escape_percent_encoding}
use prj.Uri.Normalizing.{target_path-normalize_to}
use prj.Uri.Unescaping.{unescape-escape_percent_encoding}

done-build_example :
    Sends
      (some 1)
      (build (create_response status_ok true 7) (sets (codes "ab") ∷ appends (codes "c") ∷ []))
      (codes "abc")
done-build_example =
    done-build status_ok 7 true (sets (codes "ab") ∷ appends (codes "c") ∷ []) (some 1)

match_iff_example :
    (match (fixed_size_none_of (http_method_get ∷ [])) http_method_put ≡ true)
    ↔ Allows (fixed_size_none_of (http_method_get ∷ [])) http_method_put
match_iff_example = match_iff (fixed_size_none_of (http_method_get ∷ [])) http_method_put

abbrev same_size : Matcher → ℕ
same_size k = 1

lifetime-expected_example :
    lifetime same_size 8
      (assigns (simple http_method_get)
        ∷ asks http_method_get
        ∷ moves (simple http_method_put)
        ∷ relocates
        ∷ asks http_method_get
        ∷ moves_empty
        ∷ [])
      null
    ≡ undefined
unfolding expected
lifetime-expected_example = lifetime-expected same_size 8 (
    assigns (simple http_method_get)
    ∷ asks http_method_get
    ∷ moves (simple http_method_put)
    ∷ relocates
    ∷ asks http_method_get
    ∷ moves_empty
    ∷ [])

abbrev params : RouteParams
params = record {
  request_target = codes "/a/1";
  match = codes "/a/1";
  named_parameters = (codes "k", codes "a") ∷ (codes "k", codes "b") ∷ [];
  indexed_parameters = codes "1" ∷ [];
}

run-encode_example : run fresh (encode 0x20AC) ≡ (at 0x20AC 0 valid, true)
run-encode_example = run-encode 0x20AC (inl (omega arith))

target_path-normalize_to_example : target_path (codes "/%7E%2F") ≡ normalize_to (codes "/%7E%2F")
target_path-normalize_to_example = target_path-normalize_to (codes "/%7E%2F")

unescape-escape_percent_encoding_example :
    unescape_percent_encoding (escape_percent_encoding (codes "a b%")) ≡ ok (codes "a b%")
unescape-escape_percent_encoding_example =
    unescape-escape_percent_encoding (codes "a b%")
      (omega arith, (omega arith, (omega arith, (omega arith, tt))))
