-- ===== src/Handlers/Posting.antt =====
-- `on_game_post` and `on_players_post` of web/restinio/sample/express_router/main.cpp, and GET after them.
use prj.Prelude.{
  ◌≢◌, ◌↔◌, inl, inr, Option-cases, ◌≡◌, refl, ap, true, false, none, some, [], Bytes,
  if◌then◌else◌,
}
use prj.Prelude.Outcome.{Outcome, throws}
use prj.Settings.{
  Game, Players, Selected, Store, Disk, JsonDto, IsRoundTrip, settings_txt, read_file,
  save_selected,
}
use prj.Headers.Fields.{Fields}
use prj.Headers.Message.{StatusLine, status_ok}
use prj.Response.{Sent}
use prj.Handlers.{Request, World, on_home, saved, on_players_post, on_game_post}
use prj.Handlers.Answers.{Answers, common_fields, begin-Stands, finish-Answers}
use prj.Handlers.Pages.{on_home-Answers}

-- The world with this selection, saved if the settings file can be written.
abbrev pub storing : JsonDto → Selected → World → World
storing json s w =
    let store : Store = w.store in
    let disk : Disk = store.disk in
    record w {
      store = record {
        selected = s;
        disk = if disk.writable then record disk { settings = some (json.to_json s) } else disk;
      };
    }

abbrev pub with_game : Game → Selected → Selected
with_game g s = record s { game = g }

abbrev pub with_players : Players → Selected → Selected
with_players p s = record s { players = p }

module _ (json : JsonDto) (req : Request) (w : World) where
  -- A POST to `/game` whose body parses answers 200 with no body, and replaces the game in memory and,
  -- if it can be written, in the settings file; the players stay.
  pub on_game_post-Answers :
      (g : Game)
      → json.from_json_game req.body ≡ some g
      → Answers (on_game_post json req w).0 req status_ok (common_fields req) []
        × ((on_game_post json req w).1 ≡ storing json (with_game g w.store.selected) w)
  unfolding on_game_post saved save_selected
  on_game_post-Answers g e =
      rw (on_game_post, e)
        (finish-Answers (begin-Stands req) (storing json (with_game g w.store.selected) w), refl)

  -- A POST to `/players` whose body parses answers 200 with no body, and replaces the players in memory
  -- and, if it can be written, in the settings file; the game stays.
  pub on_players_post-Answers :
      (p : Players)
      → json.from_json_players req.body ≡ some p
      → Answers (on_players_post json req w).0 req status_ok (common_fields req) []
        × ((on_players_post json req w).1 ≡ storing json (with_players p w.store.selected) w)
  unfolding on_players_post saved save_selected
  on_players_post-Answers p e =
      rw (on_players_post, e)
        (finish-Answers (begin-Stands req) (storing json (with_players p w.store.selected) w), refl)

  Answers-returns :
      (r : Outcome Sent) (status : StatusLine) (fields : Fields) (body : Bytes)
      → Answers r req status fields body
      → r ≢ throws
  Answers-returns r status fields body a e = let same = a.outcome in cc

  -- An exception leaves a POST handler, so that no response is sent, exactly if the body does not parse.
  pub post_throws_iff :
      (((on_game_post json req w).0 ≡ throws) ↔ (json.from_json_game req.body ≡ none))
      × (((on_players_post json req w).0 ≡ throws) ↔ (json.from_json_players req.body ≡ none))
  unfolding on_game_post on_players_post
  post_throws_iff = (
    (
      λ h. elim (Option-cases (json.from_json_game req.body)) [
        | inl e ↦ e
        | inr (g, e) ↦
            absurd
              (Answers-returns _ status_ok (common_fields req) [] (on_game_post-Answers g e).0 h)
      ],
      λ e. rw (on_game_post, e) refl,
    ),
    (
      λ h. elim (Option-cases (json.from_json_players req.body)) [
        | inl e ↦ e
        | inr (p, e) ↦
            absurd
              (Answers-returns _ status_ok (common_fields req) [] (on_players_post-Answers p e).0 h)
      ],
      λ e. rw (on_players_post, e) refl,
    ),
  )

writable-storing :
    (json : JsonDto) (s : Selected) (w : World)
    → w.store.disk.writable ≡ true
    → (storing json s w).store.disk.writable ≡ true
writable-storing json s w h = rw h refl

read-storing :
    (json : JsonDto) (s : Selected) (w : World)
    → IsRoundTrip json
    → w.store.disk.writable ≡ true
    → json.from_json_selected (read_file settings_txt (storing json s w).store.disk) ≡ some s
read-storing json s w round h = rw h (round s)

disk-storing :
    (json : JsonDto) (s : Selected) (w : World)
    → w.store.disk.writable ≡ false
    → (storing json s w).store.disk ≡ w.store.disk
disk-storing json s w h = rw h

-- After a POST of a game and one of a number of players whose bodies parse, with settings that can be
-- written and a JSON library that reads back what it has written, GET of `/` answers 200 with the JSON
-- of both, whatever was there before.
pub home-after-posts :
    (json : JsonDto) (first second third : Request) (w : World) (g : Game) (p : Players)
    → IsRoundTrip json
    → w.store.disk.writable ≡ true
    → json.from_json_game first.body ≡ some g
    → json.from_json_players second.body ≡ some p
    → Answers
        (on_home json third (on_players_post json second (on_game_post json first w).1).1).0
        third
        status_ok
        (common_fields third)
        (json.to_json (record { game = g; players = p }))
home-after-posts json first second third w g p round h e e' =
    let w1 : World = storing json (with_game g w.store.selected) w in
    let w2 : World = storing json (with_players p w1.store.selected) w1 in
    let posted = (on_game_post-Answers json first w g e).1 in
    let posted' = (on_players_post-Answers json second w1 p e').1 in
    rw (posted, posted')
      (on_home-Answers json third w2 (record { game = g; players = p })
        (read-storing json (with_players p w1.store.selected) w1 round
          (writable-storing json _ w h))).0

-- When the settings file cannot be written, a POST of players still answers 200, and the next GET of
-- `/` takes the selection back to what the file says.
pub unwritable_post_lost :
    (json : JsonDto) (first second : Request) (w : World) (p : Players) (s : Selected)
    → w.store.disk.writable ≡ false
    → json.from_json_players first.body ≡ some p
    → json.from_json_selected (read_file settings_txt w.store.disk) ≡ some s
    → Answers (on_players_post json first w).0 first status_ok (common_fields first) []
      × ((on_home json second (on_players_post json first w).1).1.store.selected ≡ s)
unwritable_post_lost json first second w p s h e e' =
    let (answers, posted) = on_players_post-Answers json first w p e in
    let w1 : World = storing json (with_players p w.store.selected) w in
    let kept = disk-storing json (with_players p w.store.selected) w h in
    (
      answers,
      rw posted
          (ap (λ (u : World). u.store.selected) (on_home-Answers json second w1 s (rw kept e')).1),
    )
