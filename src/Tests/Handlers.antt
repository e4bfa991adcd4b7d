-- ===== src/Tests/Handlers.antt =====
-- Instances of the theorems on the handlers.
use prj.Prelude.{
  str_eq, ◌≡◌, refl, ◌↔◌, ◌⊎◌, ◌<◌, true, false, none, some, List, [], ◌∷◌, codes, length, arith,
}
use prj.Prelude.Outcome.{throws, undefined}
use prj.Psoc.{spil_code, fisk, message_temp, c_str, format}
use prj.Psoc.Frames.{is_fisk}
use prj.Headers.Message.{status_ok}
use prj.Handlers.{
  Request, on_home, on_set_game, on_set_players, on_settings, on_game_post, on_players_post,
  on_start_game,
}
use prj.Handlers.Answers.{Answers, common_fields}
use prj.Handlers.Posting.{post_throws_iff, home-after-posts, unwritable_post_lost}
use prj.Handlers.Starting.{on_start_game_sends, on_start_game_undefined_iff}
use prj.Handlers.Running.{
  Action, Agrees, home, game_post, players_post, start_game, run, overruns, select, select_all,
}
use prj.Handlers.Storing.{run-IsSaved}
use prj.Settings.{set_players_html, set_game_html, settings_txt, read_file}
use prj.Handlers.Wire.{Reads, pages-Reads}
use prj.Handlers.Delivered.{Receives, home_is_received}
use prj.Tests.{disk, selection, toy_json, toy_json-IsRoundTrip, world, saved_world, ask}

home-after-posts_example :
    Answers
      (on_home toy_json
        (ask [] 3)
        (on_players_post toy_json
          (ask (codes "4") 2)
          (on_game_post toy_json (ask fisk 1) (world none true)).1).1).0
      (ask [] 3)
      status_ok
      (common_fields (ask [] 3))
      (codes "\u{4}Fisk4")
home-after-posts_example =
    home-after-posts toy_json (ask fisk 1) (ask (codes "4") 2) (ask [] 3) (world none true)
      (record { game = fisk }) (record { players = codes "4" }) toy_json-IsRoundTrip refl refl refl

abbrev requests : List (Action × Request)
requests =
    (home, ask [] 1)
    ∷ (game_post, ask (codes "500") 2)
    ∷ (players_post, ask [] 3)
    ∷ (start_game, ask [] 4)
    ∷ []

run-IsSaved_example :
    Agrees toy_json
      (some (selection (codes "500") (codes "2")))
      (run toy_json requests (saved_world (selection fisk (codes "2"))))
unfolding select_all select overruns message_temp c_str format
run-IsSaved_example =
    run-IsSaved toy_json requests (saved_world (selection fisk (codes "2"))) toy_json-IsRoundTrip
      (record { same = refl; writable = refl })

-- A number of players with two digits, after which the game is started.
run_overrun :
    select_all toy_json
      ((players_post, ask (codes "10") 1) ∷ (start_game, ask [] 2) ∷ (home, ask [] 3) ∷ [])
      (selection fisk (codes "2"))
    ≡ none
unfolding select_all select overruns message_temp c_str format spil_code str_eq
run_overrun = refl

on_start_game_sends_example :
    Answers
      (on_start_game toy_json (ask [] 5) (saved_world (selection fisk (codes "3")))).0
      (ask [] 5)
      status_ok
      (common_fields (ask [] 5))
      (codes "<start>")
    × ((on_start_game toy_json
          (ask [] 5)
          (saved_world (selection fisk (codes "3")))).1.psoc.port.sent
        ≡ codes "xR13C")
on_start_game_sends_example =
    on_start_game_sends toy_json (ask [] 5) (saved_world (selection fisk (codes "3"))) fisk b'1'
      b'3' 4 (2 ∷ []) refl is_fisk (omega arith, omega arith) refl (omega arith)

on_start_game_undefined_iff_example :
    ((on_start_game toy_json (ask [] 5) (saved_world (selection fisk (codes "12")))).0 ≡ undefined)
    ↔ ((4 < length (c_str (message_temp fisk (codes "12"))))
        ⊎ (format (c_str (message_temp fisk (codes "12"))) ≡ none))
on_start_game_undefined_iff_example =
    on_start_game_undefined_iff toy_json (ask [] 5) (saved_world (selection fisk (codes "12")))
      (selection fisk (codes "12")) refl

post_throws_iff_example :
    (((on_game_post toy_json (ask [] 1) (world none true)).0 ≡ throws)
      ↔ (toy_json.from_json_game [] ≡ none))
    × (((on_players_post toy_json (ask [] 1) (world none true)).0 ≡ throws)
        ↔ (toy_json.from_json_players [] ≡ none))
post_throws_iff_example = post_throws_iff toy_json (ask [] 1) (world none true)

unwritable_post_lost_example :
    Answers
      (on_players_post toy_json (ask (codes "4") 1) (world (some (codes "\u{1}500")) false)).0
      (ask (codes "4") 1)
      status_ok
      (common_fields (ask (codes "4") 1))
      []
    × ((on_home toy_json
          (ask [] 2)
          (on_players_post toy_json
            (ask (codes "4") 1)
            (world (some (codes "\u{1}500")) false)).1).1.store.selected
        ≡ selection (codes "5") (codes "00"))
unwritable_post_lost_example =
    unwritable_post_lost toy_json (ask (codes "4") 1) (ask [] 2)
      (world (some (codes "\u{1}500")) false) (record { players = codes "4" })
      (selection (codes "5") (codes "00")) refl refl refl

pages-Reads_example :
    Reads
      (on_set_players (ask [] 1) (world none true)).0
      (ask [] 1)
      status_ok
      (common_fields (ask [] 1))
      (read_file set_players_html (disk none true))
    × Reads
        (on_set_game (ask [] 1) (world none true)).0
        (ask [] 1)
        status_ok
        (common_fields (ask [] 1))
        (read_file set_game_html (disk none true))
    × Reads
        (on_settings (ask [] 1) (world none true)).0
        (ask [] 1)
        status_ok
        (common_fields (ask [] 1))
        (read_file settings_txt (disk none true))
pages-Reads_example = pages-Reads (ask [] 1) (world none true) (omega arith)

home_is_received_example :
    Receives 4
      (on_home toy_json (ask [] 0) (saved_world (selection fisk (codes "4")))).0
      (ask [] 0)
      status_ok
      (common_fields (ask [] 0))
      (codes "\u{4}Fisk4")
home_is_received_example =
    home_is_received toy_json (ask [] 0) (saved_world (selection fisk (codes "4")))
      (selection fisk (codes "4")) 4 (omega arith) refl (omega arith) refl
