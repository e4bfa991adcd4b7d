-- ===== src/Handlers/Storing.antt =====
-- The handlers of web/restinio/sample/express_router/main.cpp, the selection and `settings.txt`.
use prj.Prelude.{
  ◌<◌, ◌≡◌, refl, sym, subst, ◌∙◌, ap, ◌≢◌, ◌⊎◌, ◌≤◌, [], ◌∷◌, true, false, Option, none, some,
  List, Bytes, Option-cases, Bool-cases, inl, inr, leb, length, arith, if◌then◌else◌,
}
use prj.Prelude.Outcome.{Outcome, ok, throws, undefined, unfinished, M}
use prj.Psoc.{message_temp, c_str, format, start_spil}
use prj.Psoc.Frames.{start_spil_finishes, start_spil_undefined_iff}
use prj.Settings.{
  Selected, JsonDto, IsRoundTrip, buffered, settings_txt, start_game_html, read_file,
}
use prj.Headers.Fields.{Fields}
use prj.Headers.Message.{StatusLine}
use prj.Response.{Sent}
use prj.Handlers.{
  Request, World, begin, caught, after_start, on_players_post, on_game_post, start_selected,
  on_start_game,
}
use prj.Handlers.Answers.{
  Answers, begin-Stands, set_body-Stands, bad_request-Stands, finish-Answers,
}
use prj.Handlers.Pages.{show_pages, on_home-Answers, options-Answers}
use prj.Handlers.Posting.{
  storing, with_game, with_players, on_game_post-Answers, on_players_post-Answers,
}
use prj.Handlers.Starting.{on_start_game-selected}
use prj.Handlers.Running.{
  Action, home, set_game, set_players, settings, start_game, game_post, players_post, options_call,
  handler, proceed, run, overruns, select, select_all, IsSaved, Agrees, overrun, in_step,
}

-- The same of one handler, which may also end with an exception.
data Steps (json : JsonDto) : Option Selected → Outcome Sent × World → Type 0 where
  fails : {w : World} → Steps json none (undefined, w)
  answers :
      {sent : Sent} {w : World}
      → IsSaved json w.store
      → Steps json (some w.store.selected) (ok sent, w)
  refuses : {w : World} → IsSaved json w.store → Steps json (some w.store.selected) (throws, w)

Answers-Steps :
    {json : JsonDto} {req : Request} {status : StatusLine} {fields : Fields} {body : Bytes}
    (r : Outcome Sent × World) (w : World)
    → Answers r.0 req status fields body
    → r.1 ≡ w
    → IsSaved json w.store
    → Steps json (some w.store.selected) r
Answers-Steps {json} (o, u) w a same v =
    subst (λ o. Steps json (some w.store.selected) (o, u)) (sym a.outcome)
      (subst (λ u. Steps json (some w.store.selected) (ok a.sent, u)) (sym same) (answers v))

storing-IsSaved :
    (json : JsonDto) (s : Selected) (w : World)
    → w.store.disk.writable ≡ true
    → IsSaved json (storing json s w).store
storing-IsSaved json s w h = rw h (record { same = refl; writable = refl })

overruns-cases :
    (s : Selected)
    → let message : Bytes = c_str (message_temp s.game.game s.players.players) in
      ((overruns s ≡ true) × ((4 < length message) ⊎ (format message ≡ none)))
      ⊎ ((overruns s ≡ false) × (length message ≤ 4) × (format message ≢ none))
unfolding overruns
overruns-cases s =
    let message : Bytes = c_str (message_temp s.game.game s.players.players) in
    elim (Option-cases (format message)) [
      | inl e ↦ inl (ground arith, inr e)
      | inr (text, e) ↦ elim (Bool-cases (leb (length message) 4)) [
        | inl fits ↦ inr (ground arith, ground arith, ground arith)
        | inr long ↦ inl (ground arith, inl (ground arith))
      ]
    ]

-- The end of `on_start_game` by how `startSpil` came out.
caught-Steps :
    (json : JsonDto) (req : Request) (r : Outcome (Unit {0})) (w : World)
    → IsSaved json w.store
    → r ≢ undefined
    → r ≢ unfinished
    → Steps json (some w.store.selected) (caught (after_start req r w) (begin req) w)
unfolding caught after_start
caught-Steps json req (ok x) w v d f =
    Answers-Steps _ w
      (finish-Answers (set_body-Stands (begin-Stands req) (read_file start_game_html w.store.disk))
        w)
      refl v
caught-Steps json req throws w v d f =
    Answers-Steps _ w (finish-Answers (bad_request-Stands (begin-Stands req)) w) refl v
caught-Steps json req undefined w v d f = absurd (d refl)
caught-Steps json req unfinished w v d f = absurd (f refl)

module _ (json : JsonDto) (round : IsRoundTrip json) (req : Request) (w : World)
    (v : IsSaved json w.store) where
  readable : json.from_json_selected (read_file settings_txt w.store.disk) ≡ some w.store.selected
  readable = ap (λ o. json.from_json_selected (buffered o)) v.same ∙ round w.store.selected

  game_post-Steps :
      Steps json (select json game_post req w.store.selected) (on_game_post json req w)
  unfolding select on_game_post
  game_post-Steps = elim (Option-cases (json.from_json_game req.body)) [
    | inl e ↦ rw (on_game_post, select, e) (refuses v)
    | inr (g, e) ↦
        let (a, same) = on_game_post-Answers json req w g e in
        let chosen : select json game_post req w.store.selected
            ≡ some (with_game g w.store.selected) =
          rw (select, e) refl in
        subst (λ o. Steps json o (on_game_post json req w)) (sym chosen)
          (Answers-Steps _ _ a same (storing-IsSaved json _ w v.writable))
  ]

  players_post-Steps :
      Steps json (select json players_post req w.store.selected) (on_players_post json req w)
  unfolding select on_players_post
  players_post-Steps = elim (Option-cases (json.from_json_players req.body)) [
    | inl e ↦ rw (on_players_post, select, e) (refuses v)
    | inr (p, e) ↦
        let (a, same) = on_players_post-Answers json req w p e in
        let chosen : select json players_post req w.store.selected
            ≡ some (with_players p w.store.selected) =
          rw (select, e) refl in
        subst (λ o. Steps json o (on_players_post json req w)) (sym chosen)
          (Answers-Steps _ _ a same (storing-IsSaved json _ w v.writable))
  ]

  -- `startSpil` with the selection in memory, which is that of the file.
  abbrev started : Outcome (Unit {0}) × World
  started =
      let (r, psoc) =
        start_spil w.store.selected.game.game w.store.selected.players.players w.psoc in
      (r, record w { psoc = psoc })

  start_game-started :
      on_start_game json req w ≡ caught (after_start req started.0 started.1) (begin req) started.1
  unfolding start_selected
  start_game-started = on_start_game-selected json req w w.store.selected readable

  start_game-Steps :
      Steps json (select json start_game req w.store.selected) (on_start_game json req w)
  unfolding select caught after_start
  start_game-Steps =
      let s : Selected = w.store.selected in
      let (to, from) = start_spil_undefined_iff s.game.game s.players.players w.psoc in
      subst (Steps json (if overruns s then none else some s)) (sym start_game-started)
        (elim (overruns-cases s) [
          | inl (e, bad) ↦ rw (e, from bad) fails
          | inr (e, fits, plain) ↦ rw e (
              caught-Steps json req started.0 started.1
                (record { same = v.same; writable = v.writable })
                (λ u. elim (to u) [ inl long ↦ absurd (omega arith) | inr bad ↦ plain bad ])
                (start_spil_finishes s.game.game s.players.players w.psoc))
        ])

  handler-Steps :
      (a : Action) → Steps json (select json a req w.store.selected) (handler json a req w)
  unfolding select
  handler-Steps home =
      let (a, same) = on_home-Answers json req w w.store.selected readable in
      Answers-Steps _ w a same v
  handler-Steps set_game = let (_, (a, same), _) = show_pages req w in Answers-Steps _ w a same v
  handler-Steps set_players = let ((a, same), _, _) = show_pages req w in Answers-Steps _ w a same v
  handler-Steps settings = let (_, _, (a, same)) = show_pages req w in Answers-Steps _ w a same v
  handler-Steps start_game = start_game-Steps
  handler-Steps game_post = game_post-Steps
  handler-Steps players_post = players_post-Steps
  handler-Steps options_call = let (a, same) = options-Answers req w in Answers-Steps _ w a same v

proceed-Agrees :
    {json : JsonDto} {o : Option Selected} {r : Outcome Sent × World} (rest : M World (Unit {0}))
    (f : Selected → Option Selected)
    → Steps json o r
    → ((w : World) → IsSaved json w.store → Agrees json (f w.store.selected) (rest w))
    → Agrees json (elim o [ none ↦ none | some s ↦ f s ]) (proceed rest r)
unfolding proceed
proceed-Agrees rest f fails h = overrun
proceed-Agrees rest f (answers {w = w} v) h = h w v
proceed-Agrees rest f (refuses {w = w} v) h = h w v

-- With a JSON library that reads back what it has written, and a settings file that at first holds the
-- selection in memory and can be written, a run of any requests behaves as foretold by what each makes of
-- the selection: a POST whose body parses changes its half, nothing else does. The run comes to its end,
-- and the selection in memory is the one foretold and stands in the settings file, which can still be
-- written; unless the game is started with a message that overruns the array or that `sprintf` cannot
-- take, and then the run ends there, with undefined behaviour.
pub run-IsSaved :
    (json : JsonDto) (calls : List (Action × Request)) (w : World)
    → IsRoundTrip json
    → IsSaved json w.store
    → Agrees json (select_all json calls w.store.selected) (run json calls w)
unfolding run select_all
run-IsSaved json [] w round v = in_step v
run-IsSaved json ((a, req) ∷ calls) w round v =
    proceed-Agrees (run json calls) (select_all json calls) (handler-Steps json round req w v a)
      (λ w' v'. run-IsSaved json calls w' round v')
