-- ===== src/Settings.antt =====
-- The settings of the dealer: game_t.hpp, players_t.hpp and selected_t.hpp of
-- web/restinio/sample/express_router, and the class `RPIdata` of RPIdata.hpp that keeps them in
-- `settings.txt`. The JSON library is outside the repository, so it is a parameter, `JsonDto`.
use prj.Prelude.{◌≡◌, Bool, Option, none, some, [], Bytes, if◌then◌else◌}
use prj.Prelude.Outcome.{ok, throws, M}

-- `game_t`.
pub record Game : Type 0 where
  pub game : Bytes

-- `players_t`.
pub record Players : Type 0 where
  pub players : Bytes

-- `selected_t`; `selected_t() = default` leaves both empty.
pub record Selected : Type 0 where
  pub game : Game
  pub players : Players

abbrev pub default_selected : Selected
default_selected = record { game = record { game = [] }; players = record { players = [] } }

-- `json_dto::to_json` and `json_dto::from_json` at these types; `none` is an exception. How the
-- members are named in the text is in the `json_io` functions, which the library calls.
pub record JsonDto : Type 0 where
  pub to_json : Selected → Bytes
  pub from_json_selected : Bytes → Option Selected
  pub from_json_game : Bytes → Option Game
  pub from_json_players : Bytes → Option Players

-- What the program relies on: a value that has been written can be read back.
abbrev pub IsRoundTrip : JsonDto → Type 0
IsRoundTrip json = (s : Selected) → json.from_json_selected (json.to_json s) ≡ some s

-- The files that the program opens, in its working directory.
pub data FileName : Type 0 where
  home_html set_game_html set_players_html start_game_html settings_txt : FileName

-- A file that cannot be opened for reading is `none`.
pub record Disk : Type 0 where
  pub home : Option Bytes
  pub set_game : Option Bytes
  pub set_players : Option Bytes
  pub start_game : Option Bytes
  pub settings : Option Bytes
  pub writable : Bool

-- The content of a stream buffer into which `rdbuf()` of a file stream is put: nothing, if the file
-- did not open.
abbrev pub buffered : Option Bytes → Bytes
buffered none = []
buffered (some content) = content

-- `std::ifstream t(name); fileBuffer << t.rdbuf(); fileBuffer.str()`.
abbrev pub read_file : FileName → Disk → Bytes
read_file home_html disk = buffered disk.home
read_file set_game_html disk = buffered disk.set_game
read_file set_players_html disk = buffered disk.set_players
read_file start_game_html disk = buffered disk.start_game
read_file settings_txt disk = buffered disk.settings

-- `m_selected`, which the handlers and `RPIdata` share by reference, and the disk.
pub record Store : Type 0 where
  pub selected : Selected
  pub disk : Disk

-- `retrieveSelected`: an exception of the JSON library leaves the selection as it was.
unfoldable pub retrieve_selected : JsonDto → M Store (Unit {0})
retrieve_selected json s = elim (json.from_json_selected (read_file settings_txt s.disk)) [
  | none ↦ (throws, s)
  | some selected ↦ (ok tt, record s { selected = selected })
]

-- `saveSelected`: a file that does not open swallows what is written, with no error.
unfoldable pub save_selected : JsonDto → M Store (Unit {0})
save_selected json s =
    let text : Bytes = json.to_json s.selected in
    let disk : Disk = s.disk in
    (
      ok tt,
      record s { disk = if disk.writable then record disk { settings = some text } else disk },
    )
