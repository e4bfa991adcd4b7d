-- ===== src/Server/Building.antt =====
-- The router that `server_handler` of web/restinio/sample/express_router/main.cpp builds, entry by entry.
use prj.Prelude.{
  list_laws, ℕ, ◌≡◌, refl, ◌∙◌, true, ◌&&◌, Option, none, some, List, [], ◌∷◌, ◌++◌, Bytes,
  Bool-cases, inl, inr, codes,
}
use prj.Prelude.Outcome.{Outcome, ok}
use prj.Prelude.Throwing.{◌>>=◌}
use prj.RouteParams.{RouteParams}
use prj.MethodMatcher.{
  MethodId, Matcher, match, simple, none_of_methods, null, http_method_get, http_method_post,
  http_method_options,
}
use prj.MethodMatcher.Holding.{assign-match}
use prj.Path2Regex.Options.{default_options}
use prj.Path2Regex.Token.{add_named}
use prj.Path2Regex.Compile.{RegexEngine}
use prj.Express.{RouteEntry, no_routes, entry_match, first_match, add_handler}
use prj.Express.Choosing.{Misses, Chooses, first_match_iff}
use prj.Server.{
  Endpoint, home, set_game, set_players, start_game, settings, players_post, game_post,
  options_call, not_allowed, App, get, post, other, server_handler,
}
use prj.Server.Table.{Row, row, rows, lookup, is_bare, literal}
use prj.Server.Engine.{
  Documented, same_path, author_route, bare_params, IsEntry, add_handler-IsEntry, path2regex-author,
}

abbrev pub with_params : Bytes → Option Endpoint → Option (Endpoint × RouteParams)
with_params target none = none
with_params target (some e) = some (e, bare_params target)

module _ (engine : RegexEngine) where
  open engine use {Regex}

  -- Entries for these rows, in order.
  abbrev pub Serves : List (RouteEntry Regex Endpoint) → List Row → Type 0
  Serves [] [] = Unit
  Serves (e ∷ es) (r ∷ rs) = IsEntry engine r.methods r.path r.endpoint e × Serves es rs
  Serves [] (r ∷ rs) = ⊥
  Serves (e ∷ es) [] = ⊥

  append-Serves :
      (es : List (RouteEntry Regex Endpoint)) (rs : List Row) (e : RouteEntry Regex Endpoint)
      (r : Row)
      → Serves es rs
      → IsEntry engine r.methods r.path r.endpoint e
      → Serves (es ++ e ∷ []) (rs ++ r ∷ [])
  append-Serves [] [] e r s k = (k, tt)
  append-Serves [] (y ∷ rs) e r s k = elim s [ ]
  append-Serves (x ∷ es) [] e r s k = elim s [ ]
  append-Serves (x ∷ es) (y ∷ rs) e r s k = (s.0, append-Serves es rs e r s.1 k)

  pub first_match-lookup :
      (es : List (RouteEntry Regex Endpoint)) (rs : List Row) (m : MethodId) (target : Bytes)
      → Serves es rs
      → first_match engine es m target ≡ ok (with_params target (lookup rs m target))
  unfolding first_match lookup
  first_match-lookup [] [] m target s = refl
  first_match-lookup [] (r ∷ rs) m target s = elim s [ ]
  first_match-lookup (e ∷ es) [] m target s = elim s [ ]
  first_match-lookup (e ∷ es) (r ∷ rs) m target s =
      let x : IsEntry engine r.methods r.path r.endpoint e = s.0 in
      elim (Bool-cases (match r.methods m && same_path r.path target)) [
        | inl t ↦ rw (x.takes m target, t, x.has_handler) refl
        | inr f ↦ rw (x.takes m target, f) (first_match-lookup es rs m target s.1)
      ]

  -- A route after one that has been chosen plays no part.
  pub before-first_match :
      (es more : List (RouteEntry Regex Endpoint)) (m : MethodId) (target : Bytes) (h : Endpoint)
      (p : RouteParams)
      → first_match engine es m target ≡ ok (some (h, p))
      → first_match engine (es ++ more) m target ≡ ok (some (h, p))
  before-first_match es more m target h p e =
      let c : Chooses engine m target es h p = (first_match_iff engine m target es h p).0 e in
      (first_match_iff engine m target (es ++ more) h p).1 (record {
        earlier = c.earlier;
        entry = c.entry;
        later = c.later ++ more;
        split = rw (c.split) (simp list_laws);
        all_miss = c.all_miss;
        matches = c.matches;
        same_handler = c.same_handler;
      })

  -- A router that so far has entries for these rows.
  abbrev pub Built : List Row → Outcome (App engine) → Type 0
  Built rs r =
      (router : App engine) × (r ≡ ok router)
      × Serves router.handlers rs
      × (router.non_matched_handler ≡ none)

  module _ (doc : Documented engine) (size_of : Matcher → ℕ) (buffer_size : ℕ) where
    add-Built :
        (rs : List Row) (r : Outcome (App engine)) (methods : Matcher) (path : Bytes) (e : Endpoint)
        → is_bare path ≡ true
        → Built rs r
        → Built
            (rs ++ row methods path e ∷ [])
            (r >>= add_handler engine size_of buffer_size methods path default_options e)
    add-Built rs r methods path e l (router, made, s, none_set) =
        let (entry, added, is) =
          add_handler-IsEntry engine doc path e size_of buffer_size methods router
            (literal path l) in
        (
          record router { handlers = router.handlers ++ entry ∷ [] },
          rw made added,
          append-Serves router.handlers rs entry (row methods path e) s is,
          none_set,
        )

    -- The handlers before the last.
    rows-Built :
        (r : Outcome (App engine)) × Built rows r
        × (server_handler engine size_of buffer_size ≡ (
            r
            >>= other engine size_of buffer_size
                (none_of_methods (http_method_get ∷ []))
                author_route
                not_allowed))
    unfolding server_handler get post other is_bare
    rows-Built =
        let start : Built [] (ok no_routes) = (no_routes, refl, tt, refl) in
        let b1 = add-Built [] _ (simple http_method_get) (codes "/") home refl start in
        let b2 = add-Built _ _ (simple http_method_get) (codes "/game") set_game refl b1 in
        let b3 = add-Built _ _ (simple http_method_get) (codes "/players") set_players refl b2 in
        let b4 = add-Built _ _ (simple http_method_get) (codes "/startgame") start_game refl b3 in
        let b5 = add-Built _ _ (simple http_method_get) (codes "/settings") settings refl b4 in
        let b6 = add-Built _ _ (simple http_method_post) (codes "/players") players_post refl b5 in
        let b7 = add-Built _ _ (simple http_method_post) (codes "/game") game_post refl b6 in
        let b8 = add-Built _ _ (simple http_method_options) (codes "/") options_call refl b7 in
        let b9 =
          add-Built _ _ (none_of_methods (http_method_get ∷ http_method_post ∷ [])) (codes "/api")
            not_allowed refl b8 in
        (_, b9, refl)

    -- The last route, which no GET request matches.
    author-added :
        (router : App engine)
        → (entry : RouteEntry Regex Endpoint) × (other engine size_of buffer_size
              (none_of_methods (http_method_get ∷ []))
              author_route
              not_allowed
              router
            ≡ ok (record router { handlers = router.handlers ++ entry ∷ [] }))
          × ((target : Bytes) → Misses engine http_method_get target entry)
    unfolding other add_handler entry_match match
    author-added router =
        let (holder, stored, answers) =
          assign-match size_of buffer_size null (none_of_methods (http_method_get ∷ []))
            (λ e. cc) in
        (
          record {
            method_matcher = holder;
            route_regex = doc.author;
            appenders = add_named (codes "author") ∷ [];
            route_handler = not_allowed;
          },
          rw (path2regex-author engine doc, stored) refl,
          λ target. rw (answers http_method_get) refl,
        )

    -- The router has an entry for each row, and one more that no GET request matches.
    pub server_handler-entries :
        (before : App engine) × (entry : RouteEntry Regex Endpoint) × (server_handler engine size_of
            buffer_size
          ≡ ok (record before { handlers = before.handlers ++ entry ∷ [] }))
        × Serves before.handlers rows
        × (before.non_matched_handler ≡ none)
        × ((target : Bytes) → Misses engine http_method_get target entry)
    server_handler-entries =
        let (r, (before, made, s, none_set), last) = rows-Built in
        let (entry, added, misses) = author-added before in
        (before, entry, last ∙ rw made added, s, none_set, misses)
