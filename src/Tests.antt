-- ===== src/Tests.antt =====
-- Tests and worked instances, and what they share: a JSON library, a disk, a dealer and requests.
mod Handlers
mod Devices
mod Web
mod Coordination
mod Routing
mod Headers
mod Connection
use prj.Prelude.{
  drop-append, ℕ, ◌≡◌, refl, ap, Bool, true, false, Option, none, some, List, [], ◌∷◌, ◌++◌, Bytes,
  codes, length, take, drop, take-append,
}
use prj.Psoc.{Psoc}
use prj.Serial.{Port}
use prj.Settings.{Game, Players, Selected, Store, Disk, JsonDto, IsRoundTrip, default_selected}
use prj.Handlers.{Request, World}

abbrev pub selection : Bytes → Bytes → Selected
selection g p = record { game = record { game = g }; players = record { players = p } }

-- A format in which the length of the first text stands before both, and in which a body that is not
-- empty is the value itself.
abbrev pub toy_read : Bytes → Option Selected
toy_read [] = none
toy_read (n ∷ text) = some (selection (take n text) (drop n text))

abbrev pub toy_json : JsonDto
toy_json = record {
  to_json = λ s. length s.game.game ∷ (s.game.game ++ s.players.players);
  from_json_selected = toy_read;
  from_json_game = λ body. elim body [ [] ↦ none | c ∷ s ↦ some (record { game = c ∷ s }) ];
  from_json_players = λ body. elim body [ [] ↦ none | c ∷ s ↦ some (record { players = c ∷ s }) ];
}

pub toy_json-IsRoundTrip : IsRoundTrip toy_json
toy_json-IsRoundTrip s =
    let g : Bytes = s.game.game in
    let p : Bytes = s.players.players in rw (take-append g p, drop-append g p) refl

abbrev pub disk : Option Bytes → Bool → Disk
disk saved can_write = record {
  home = some (codes "<home>");
  set_game = some (codes "<game>");
  set_players = none;
  start_game = some (codes "<start>");
  settings = saved;
  writable = can_write;
}

abbrev pub port : Port
port = record { baud_rate = 57600; input = []; room = 4 ∷ 2 ∷ []; sent = codes "x" }

abbrev pub dealer : Psoc
dealer = record { port = port; buf = 7 ∷ 7 ∷ 7 ∷ 7 ∷ 7 ∷ [] }

abbrev pub world : Option Bytes → Bool → World
world saved can_write = record {
  store = record { selected = default_selected; disk = disk saved can_write };
  psoc = dealer;
}

abbrev pub saved_world : Selected → World
saved_world s = record {
  store = record { selected = s; disk = disk (some (toy_json.to_json s)) true };
  psoc = dealer;
}

abbrev pub ask : Bytes → ℕ → Request
ask body id = record { body = body; request_id = id; keep_alive = true; now = codes "Mon" }
