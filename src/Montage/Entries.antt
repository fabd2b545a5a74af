-- ===== src/Montage/Entries.antt =====
-- docs/video/edicion/montaje.py: `CLIPS`, which montaje_v2.py repeats. t / 1.06 is rounded down to
-- milliseconds.
use telematica_telemetria.Base.{◌*◌, ◌/◌, none, some, List, [], ◌∷◌}
use telematica_telemetria.Base.Text.{codes}
use telematica_telemetria.Montage.Clips.{Entry, Speed}

-- the speed of four of the clips
abbrev a_little_faster : Speed
a_little_faster = record { printed = codes "1.06"; slower = λ t. t * 100 / 106 }

-- `CLIPS`, entry by entry
abbrev max_intro : Entry
max_intro = record {
  id = codes "01-max-intro";
  who = codes "Maximiliano Bustamante";
  title = codes "1 · Presentación y problema";
  cam = codes "full";
  trim = (0, 89500);
  cut = none;
  speed = none;
  overlays =
      record { file = codes "ov-arquitectura.png"; from = 26000; to = 71000 }
      ∷ record { file = codes "ov-web-telemetria-digitdeck-co.png"; from = 71000; to = 84000 }
      ∷ [];
}

abbrev max_protocolo : Entry
max_protocolo = record {
  id = codes "02-max-protocolo";
  who = codes "Maximiliano Bustamante";
  title = codes "2 · Protocolo TLP/1.0";
  cam = codes "full";
  trim = (0, 119500);
  cut = none;
  speed = none;
  overlays =
      record { file = codes "ov-secuencia.png"; from = 24000; to = 65000 }
      ∷ record { file = codes "ov-tabla-errores.png"; from = 65000; to = 88000 }
      ∷ record { file = codes "ov-tabla-transporte.png"; from = 88000; to = 116000 }
      ∷ [];
}

abbrev max_servidor : Entry
max_servidor = record {
  id = codes "03-max-servidor";
  who = codes "Maximiliano Bustamante";
  title = codes "3 · El servidor en C";
  cam = codes "full";
  trim = (0, 106500);
  cut = none;
  speed = none;
  overlays =
      record { file = codes "ov-code-tcp.png"; from = 11000; to = 40000 }
      ∷ record { file = codes "ov-code-udp.png"; from = 40000; to = 60000 }
      ∷ record { file = codes "ov-code-state.png"; from = 60000; to = 92000 }
      ∷ record { file = codes "ov-docker-ps.png"; from = 92000; to = 106000 }
      ∷ [];
}

abbrev max_nube : Entry
max_nube = record {
  id = codes "04-max-nube";
  who = codes "Maximiliano Bustamante";
  title = codes "4 · Nube, DNS y Docker";
  cam = codes "full";
  trim = (0, 107500);
  cut = none;
  speed = none;
  overlays =
      record { file = codes "ov-aws-instancia-security-group.png"; from = 10000; to = 45000 }
      ∷ record { file = codes "ov-dns-cloudflare.png"; from = 45000; to = 73000 }
      ∷ record { file = codes "ov-nslookup.png"; from = 73000; to = 86000 }
      ∷ record { file = codes "ov-dockerfile.png"; from = 86000; to = 107000 }
      ∷ [];
}

abbrev val_nodos : Entry
val_nodos = record {
  id = codes "05-val-nodos";
  who = codes "Valeria Hornung";
  title = codes "5 · Nodos de telemetría";
  cam = codes "screen";
  trim = (0, 139500);
  cut = none;
  speed = some a_little_faster;
  overlays = record { file = codes "ov-secuencia.png"; from = 24000; to = 46000 } ∷ [];
}

abbrev val_operador : Entry
val_operador = record {
  id = codes "06-val-operador";
  who = codes "Valeria Hornung";
  title = codes "6 · Cliente operador y alertas";
  cam = codes "screen";
  trim = (0, 193500);
  cut = none;
  speed = some a_little_faster;
  overlays = [];
}

abbrev val_fallos : Entry
val_fallos = record {
  id = codes "07-val-fallos";
  who = codes "Valeria Hornung";
  title = codes "7 · Recuperación ante fallos y pruebas";
  cam = codes "screen";
  trim = (0, 153800);
  cut = none;
  speed = some a_little_faster;
  overlays = record { file = codes "ov-tabla-pruebas.png"; from = 125000; to = 153000 } ∷ [];
}

abbrev val_wireshark : Entry
val_wireshark = record {
  id = codes "08-val-wireshark";
  who = codes "Valeria Hornung";
  title = codes "8 · Análisis de tráfico con Wireshark";
  cam = codes "screen";
  trim = (0, 214500);
  cut = none;
  speed = some a_little_faster;
  overlays = record { file = codes "ov-tabla-capas.png"; from = 192000; to = 214000 } ∷ [];
}

abbrev pub clips : List Entry
clips =
    max_intro ∷ max_protocolo ∷ max_servidor ∷ max_nube ∷ val_nodos ∷ val_operador ∷ val_fallos
    ∷ val_wireshark ∷ []
