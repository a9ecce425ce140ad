-- ===== src/Witnesses/Map.antt =====
-- The theorems on the map program at a position report as received.
use gnuais.Common.{
  ℕ, ◌<◌, ◌≡◌, refl, inl, some, List, [], ◌∷◌, pos, ◌>>=◌, replicate, map, take, All-replicate,
  arith,
}
use gnuais.Protodec.Types.{over}
use gnuais.Protodec.Henten.{be_value, field}
use gnuais.Protodec.Nmea.{generate_nmea, emit_all}
use gnuais.Gui.{ShipData, Ship, updateship}
use gnuais.Gui.Reader.{Reader, on_reads}
use gnuais.Gui.Fleet.{IsFleet, ship_of, updated, updateship-IsFleet}
use gnuais.Gui.Link.{IsReader, socket_writes, frame_ship, on_reads-position}
use gnuais.Gui.Turns.{HasRead}
use gnuais.Gui.Reassembly.{on_reads-frame}
use gnuais.Ipc.{gnuais_ipc_init, socketlistener, ipc_write}
use gnuais.Ipc.Clients.{ipc_write-clients}
use gnuais.Witnesses.{frame, frame-IsBit, env}

abbrev no_ship : ShipData
no_ship = record {
  type = 0;
  mmsi = 0;
  latitude = over (pos 0) 1;
  longitude = over (pos 0) 1;
  speed = over (pos 0) 1;
  course = over (pos 0) 1;
  heading = over (pos 0) 1;
}

abbrev started : Reader
started = record {
  nmeabuffer = replicate 256 0;
  aisline = replicate 500 0;
  lettersread = 0;
  previoussentence = pos 0;
  r_buffer = replicate 600 0;
  shipd = no_ship;
  ships = [];
}

started-IsReader : IsReader started
started-IsReader = record {
  nmeabuffer_size = refl;
  aisline_size = refl;
  r_buffer_size = refl;
  r_buffer_bits = All-replicate (λ b. b < 2) 600 0 (omega arith);
}

on_reads-position_example :
    (ships : List Ship) × ((do
      ss ← generate_nmea 168 0 3 frame
      g' ← on_reads (socket_writes (emit_all env ss)) started
      some g'.ships)
      ≡ some ships)
    × ((mmsi : ℕ) → ship_of mmsi ships ≡ updated (frame_ship frame) [] mmsi)
unfolding be_value
on_reads-position_example =
    on_reads-position frame frame-IsBit env 0 3 28 started refl (omega arith) (omega arith)
      (omega arith) (omega arith) (omega arith) (inl (unfold field in refl)) started-IsReader
      (unfold IsFleet in (tt, omega arith))

on_reads-frame_example :
    (g' : Reader) × ((do
      ss ← generate_nmea 426 0 3 frame
      on_reads (socket_writes (emit_all env ss)) started)
      ≡ some g')
    × HasRead frame 426 started g'
on_reads-frame_example =
    on_reads-frame frame frame-IsBit env 0 3 71 started refl (omega arith) (omega arith)
      (omega arith) (omega arith) (omega arith) started-IsReader

abbrev ship : ℕ → ℕ → Ship
ship mmsi heading = record {
  mmsi = mmsi;
  longitude = over (pos 0) 1;
  latitude = over (pos 0) 1;
  heading = over (pos heading) 1;
  course = over (pos 0) 1;
  type = 1;
}

abbrev fleet : List Ship
fleet = ship 1 10 ∷ ship 2 20 ∷ []

updateship-IsFleet_example :
    IsFleet (updateship (ship 2 30) fleet)
    × ((mmsi : ℕ) → ship_of mmsi (updateship (ship 2 30) fleet) ≡ updated (ship 2 30) fleet mmsi)
updateship-IsFleet_example =
    updateship-IsFleet (ship 2 30) fleet (unfold IsFleet in ((refl, (refl, tt)), omega arith))

ipc_write-clients_example :
    (socketlistener (5 ∷ 6 ∷ []) (gnuais_ipc_init (replicate 20 0)) >>= ipc_write (b'!' ∷ []))
    ≡ some (map (λ fd. (fd, b'!' ∷ [])) (take 18 (5 ∷ 6 ∷ [])))
ipc_write-clients_example = ipc_write-clients (5 ∷ 6 ∷ []) (replicate 20 0) (b'!' ∷ []) refl
