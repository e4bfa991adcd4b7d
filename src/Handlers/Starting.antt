-- ===== src/Handlers/Starting.antt =====
-- `on_start_game` of web/restinio/sample/express_router/main.cpp.
use prj.Prelude.{
  ℕ, ◌≡◌, ◌≤◌, ◌<◌, refl, ap, ◌≢◌, ◌↔◌, ◌⊎◌, none, some, List, [], ◌∷◌, ◌++◌, Bytes, length,
}
use prj.Prelude.Outcome.{Outcome, ok, throws, undefined, unfinished}
use prj.Psoc.{start_spil, message_temp, c_str, format}
use prj.Psoc.Frames.{IsGame, IsPlain, frame, start_spil_sends, start_spil_undefined_iff}
use prj.Settings.{
  Selected, Store, JsonDto, settings_txt, start_game_html, read_file, retrieve_selected,
}
use prj.Serial.{Port}
use prj.Headers.Fields.{Fields}
use prj.Headers.Message.{StatusLine, status_ok, status_bad_request}
use prj.Response.{Sent}
use prj.Handlers.{Request, World, begin, caught, after_start, start_selected, on_start_game}
use prj.Handlers.Answers.{
  Answers, common_fields, begin-Stands, set_body-Stands, bad_request-Stands, finish-Answers,
}

-- The world with this selection in memory.
abbrev pub selecting : Selected → World → World
selecting s w = let store : Store = w.store in record w { store = record store { selected = s } }

-- The world after `startSpil`.
abbrev started_world : Bytes → Bytes → World → World
started_world spil antal w = record w { psoc = (start_spil spil antal w.psoc).1 }

Answers-defined :
    {r : Outcome Sent} {req : Request} {status : StatusLine} {fields : Fields} {body : Bytes}
    → Answers r req status fields body
    → r ≢ undefined
Answers-defined a e = let same = a.outcome in cc

caught_undefined_iff :
    (req : Request) (r : Outcome (Unit {0})) (w : World)
    → ((caught (after_start req r w) (begin req) w).0 ≡ undefined) ↔ (r ≡ undefined)
unfolding caught after_start
caught_undefined_iff req (ok x) w = (
  λ h. absurd (
      Answers-defined
        (finish-Answers
          (set_body-Stands (begin-Stands req) (read_file start_game_html w.store.disk)) w)
        h),
  λ e. cc,
)
caught_undefined_iff req throws w = (
  λ h. absurd (Answers-defined (finish-Answers (bad_request-Stands (begin-Stands req)) w) h),
  λ e. cc,
)
caught_undefined_iff req undefined w = (λ _. refl, λ _. refl)
caught_undefined_iff req unfinished w = (λ h. cc, λ e. cc)

module _ (json : JsonDto) (req : Request) (w : World) where
  -- GET of `/startgame` with readable settings acts on the game and the players that the settings
  -- file names.
  pub on_start_game-selected :
      (s : Selected)
      → json.from_json_selected (read_file settings_txt w.store.disk) ≡ some s
      → on_start_game json req w
        ≡ (let r = start_selected req (ok tt) (selecting s w) in caught r.0 (begin req) r.1)
  unfolding on_start_game retrieve_selected
  on_start_game-selected s e = rw (on_start_game, retrieve_selected, e) refl

  -- GET of `/startgame` with settings that do not parse answers 400 with no body, sends nothing to the
  -- dealer and changes nothing.
  pub on_start_game_bad_settings :
      json.from_json_selected (read_file settings_txt w.store.disk) ≡ none
      → Answers (on_start_game json req w).0 req status_bad_request (common_fields req) []
        × ((on_start_game json req w).1 ≡ w)
  unfolding on_start_game retrieve_selected start_selected caught
  on_start_game_bad_settings e =
      rw (on_start_game, retrieve_selected, e)
        (finish-Answers (bad_request-Stands (begin-Stands req)) w, refl)

  -- GET of `/startgame` when the settings file names a game that the pages offer and a number of
  -- players of one byte, neither NUL nor `%`, and the port takes four bytes: the dealer gets `R`, the
  -- number of the game, the byte for the players and `C`, and nothing else, and the answer is 200 with
  -- the start page.
  pub on_start_game_sends :
      (spil : Bytes) (d p c : ℕ) (more : List ℕ)
      → json.from_json_selected (read_file settings_txt w.store.disk)
        ≡ some (record { game = record { game = spil }; players = record { players = p ∷ [] } })
      → IsGame spil d
      → IsPlain p
      → w.psoc.port.room ≡ c ∷ more
      → 4 ≤ c
      → Answers
          (on_start_game json req w).0
          req
          status_ok
          (common_fields req)
          (read_file start_game_html w.store.disk)
        × ((on_start_game json req w).1.psoc.port.sent ≡ w.psoc.port.sent ++ frame d p)
  unfolding start_selected after_start caught
  on_start_game_sends spil d p c more e g h r f =
      let s : Selected = record {
        game = record { game = spil };
        players = record { players = p ∷ [] };
      } in
      let (started, port) = start_spil_sends spil d p c more w.psoc g h r f in
      rw (on_start_game-selected s e, started)
        (
          finish-Answers
              (set_body-Stands (begin-Stands req) (read_file start_game_html w.store.disk))
              (started_world spil (p ∷ []) (selecting s w)),
          ap (λ (q : Port). q.sent) port,
        )

  -- GET of `/startgame` runs into undefined behaviour exactly when the message for the game and the
  -- players of the settings file is longer than four bytes, or makes `sprintf` look for an argument.
  pub on_start_game_undefined_iff :
      (s : Selected)
      → json.from_json_selected (read_file settings_txt w.store.disk) ≡ some s
      → let message : Bytes = c_str (message_temp s.game.game s.players.players) in
        ((on_start_game json req w).0 ≡ undefined)
        ↔ ((4 < length message) ⊎ (format message ≡ none))
  unfolding start_selected
  on_start_game_undefined_iff s e =
      let (to, from) = start_spil_undefined_iff s.game.game s.players.players w.psoc in
      let (up, down) =
        caught_undefined_iff req (start_spil s.game.game s.players.players w.psoc).0
          (started_world s.game.game s.players.players (selecting s w)) in
      rw (on_start_game-selected s e) (λ h. to (up h), λ h. down (from h))
