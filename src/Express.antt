-- ===== src/Express.antt =====
-- The router of web/restinio/restinio/router/express.hpp: `route_matcher_t`, the route entries and
-- `generic_express_router_t`. A handler is a value of a type of its own, which the router chooses
-- and does not run. An engine compiles and matches the expressions.

pub mod Choosing
pub mod Params
use prj.Prelude.{
  ℕ, zero, suc, ◌+◌, ◌-◌, ◌≡◌, Bool, true, false, Option, none, some, List, [], ◌∷◌, ◌++◌, Bytes,
  leb, ◌&&◌, if◌then◌else◌, length, take, drop,
}
use prj.Prelude.Outcome.{Outcome, ok, undefined, throws}
use prj.Prelude.Throwing.{◌>>=◌}
use prj.RouteParams.{RouteParams}
use prj.MethodMatcher.{
  MethodId, Matcher, simple, Holder, null, assign, holder_match, http_method_delete,
  http_method_get, http_method_head, http_method_post, http_method_put,
}
use prj.Path2Regex.Options.{Options, default_options}
use prj.Path2Regex.Token.{Appender, add_named, add_indexed}
use prj.Path2Regex.Compile.{RegexEngine, path2regex}
use prj.Uri.{target_path}

-- `route_params_appender_t`: `add_named_param` and `add_indexed_param`.
abbrev pub add_param : Appender → Bytes → RouteParams → RouteParams
add_param (add_named key) value p = record p {
  named_parameters = p.named_parameters ++ (key, value) ∷ [];
}
add_param add_indexed value p = record p { indexed_parameters = p.indexed_parameters ++ value ∷ [] }

-- The `string_view_t` of a submatch. Positions outside the target are undefined.
unfoldable pub submatch : Bytes → ℕ × ℕ → Outcome Bytes
submatch target (from, to) =
    if leb from to && leb to (length target)
    then ok (take (to - from) (drop from target))
    else undefined

-- The second loop of `match_route`: the appenders without a submatch get empty values.
unfoldable pub add_empty : List Appender → RouteParams → RouteParams
add_empty [] p = p
add_empty (a ∷ appenders) p = add_empty appenders (add_param a [] p)

-- Both loops. A submatch without an appender is an access past the end of the sequence.
unfoldable pub add_submatches :
    Bytes → List Appender → List (ℕ × ℕ) → RouteParams → Outcome RouteParams
unfolding add_empty submatch
add_submatches target appenders [] p = ok (add_empty appenders p)
add_submatches target [] (m ∷ matches) p = undefined
add_submatches target (a ∷ appenders) (m ∷ matches) p =
    submatch target m >>= λ value. add_submatches target appenders matches (add_param a value p)

-- `match_route` once the engine has matched.
unfoldable pub matched : Bytes → List Appender → List (ℕ × ℕ) → Outcome RouteParams
unfolding add_submatches submatch
matched target appenders [] = undefined
matched target appenders (m ∷ matches) = submatch target m >>= λ whole.
    add_submatches target appenders matches (record {
      request_target = target;
      match = whole;
      named_parameters = [];
      indexed_parameters = [];
    })

-- What the router does with a request: it calls the handler of a route with its parameters, or the
-- handler for the requests that match no route, or leaves the request unhandled.
pub data Routed (H N : Type 0) : Type 0 where
  handle : H → RouteParams → Routed H N
  non_matched : N → Routed H N
  not_handled : Routed H N

-- `generic_express_route_entry_t` with its `route_matcher_t`, the regex of this type.
pub record RouteEntry (R H : Type 0) : Type 0 where
  pub method_matcher : Holder
  pub route_regex : R
  pub appenders : List Appender
  pub route_handler : H

-- `generic_express_router_t`.
pub record Router (R H N : Type 0) : Type 0 where
  pub handlers : List (RouteEntry R H)
  pub non_matched_handler : Option N

abbrev pub no_routes : {R H N : Type 0} → Router R H N
no_routes = record { handlers = []; non_matched_handler = none }

-- `non_matched_request_handler`.
abbrev pub non_matched_request_handler : {R H N : Type 0} → N → Router R H N → Router R H N
non_matched_request_handler nmrh r = record r { non_matched_handler = some nmrh }

module _ (engine : RegexEngine) {H : Type 0} where
  open engine use {Regex, try_match}

  -- `match_route`, on what `target_path.view()` shows.
  unfoldable pub match_route : RouteEntry Regex H → Bytes → Outcome (Option RouteParams)
  unfolding matched
  match_route entry target = elim (try_match target entry.route_regex) [
    | none ↦ ok none
    | some matches ↦ matched target entry.appenders matches >>= λ p. ok (some p)
  ]

  -- The matcher of an entry: the method first, then the route.
  unfoldable pub entry_match : RouteEntry Regex H → MethodId → Bytes → Outcome (Option RouteParams)
  unfolding match_route
  entry_match entry method_id target = holder_match entry.method_matcher method_id >>= λ b.
      if b then match_route entry target else ok none

  -- The loop over `m_handlers`.
  unfoldable pub first_match :
      List (RouteEntry Regex H) → MethodId → Bytes → Outcome (Option (H × RouteParams))
  unfolding entry_match
  first_match [] method_id target = ok none
  first_match (entry ∷ entries) method_id target =
      let rest = first_match entries method_id target in
      entry_match entry method_id target >>= λ r. elim r [
        | some p ↦ ok (some (entry.route_handler, p))
        | none ↦ rest
      ]

-- The end of `operator()`.
abbrev pub chosen : {H N : Type 0} → Option N → Option (H × RouteParams) → Routed H N
chosen nmrh (some (h, p)) = handle h p
chosen (some nmrh) none = non_matched nmrh
chosen none none = not_handled

module _ (engine : RegexEngine) {H N : Type 0} where
  open engine use {Regex}

  -- `operator()`, on the method and the path of the request.
  unfoldable pub route : Router Regex H N → MethodId → Bytes → Outcome (Routed H N)
  unfolding first_match
  route router method_id path = target_path path >>= λ target.
      first_match engine router.handlers method_id target >>= λ r.
      ok (chosen router.non_matched_handler r)

  module _ (size_of : Matcher → ℕ) (buffer_size : ℕ) where
    -- `add_handler`: the path is compiled, then the holder of a new entry is assigned.
    unfoldable pub add_handler :
        Matcher → Bytes → Options → H → Router Regex H N → Outcome (Router Regex H N)
    unfolding path2regex
    add_handler matcher route_path options h router = path2regex engine route_path options >>= λ r.
        assign size_of buffer_size null matcher >>= λ holder. ok (record router {
          handlers =
              router.handlers
              ++ record {
                method_matcher = holder;
                route_regex = r.0;
                appenders = r.1;
                route_handler = h;
              }
                ∷ [];
        })

    abbrev pub http_delete : Bytes → Options → H → Router Regex H N → Outcome (Router Regex H N)
    http_delete route_path options h router =
        add_handler (simple http_method_delete) route_path options h router

    abbrev pub http_get : Bytes → Options → H → Router Regex H N → Outcome (Router Regex H N)
    http_get route_path options h router =
        add_handler (simple http_method_get) route_path options h router

    abbrev pub http_head : Bytes → Options → H → Router Regex H N → Outcome (Router Regex H N)
    http_head route_path options h router =
        add_handler (simple http_method_head) route_path options h router

    abbrev pub http_post : Bytes → Options → H → Router Regex H N → Outcome (Router Regex H N)
    http_post route_path options h router =
        add_handler (simple http_method_post) route_path options h router

    abbrev pub http_put : Bytes → Options → H → Router Regex H N → Outcome (Router Regex H N)
    http_put route_path options h router =
        add_handler (simple http_method_put) route_path options h router
