-- ===== src/Cards/Sources.antt =====
-- docs/video/edicion/tarjetas.py: the cards of code and of what a terminal showed. `report` is the text of a
-- file below the folder above the program's, and `capture` that of one beside the program.
use telematica_telemetria.Base.{List, [], ◌∷◌, ◌++◌}
use telematica_telemetria.Base.Text.{Text, codes, split}
use telematica_telemetria.Cards.Draw.{Card, mono, mono_s, code_card, src_lines}

module _ (report capture : Text → Text) where
  abbrev tcp : List Text
  tcp = src_lines (report (codes "server/src/tcp_operator.c")) 23 50

  abbrev udp : List Text
  udp =
      let source = report (codes "server/src/udp_telemetry.c") in
      src_lines source 14 34
      ++ ([] ∷ codes "    /* ... en el bucle del hilo UDP: */" ∷ [])
      ++ src_lines source 44 48
      ++ src_lines source 54 62

  abbrev state : List Text
  state =
      let main = report (codes "server/src/main.c") in
      let source = report (codes "server/src/state.c") in
      (codes "/* main.c */" ∷ [])
      ++ src_lines main 27 34
      ++ ([] ∷ [])
      ++ src_lines main 47 53
      ++ ([] ∷ codes "/* state.c: todo acceso al estado pasa por el mutex */" ∷ [])
      ++ src_lines source 12 13
      ++ src_lines source 24 26
      ++ ([] ∷ codes "/* tcp_operator.c: un hilo por cliente */" ∷ [])
      ++ src_lines (report (codes "server/src/tcp_operator.c")) 139 147

  -- the cards, in the order in which they are made
  unfoldable pub code_cards : List Card
  unfolding code_card src_lines
  code_cards =
      code_card (codes "code-tcp") (codes "server/src/tcp_operator.c · socket, bind, listen") tcp
        mono_s (codes "socket(" ∷ codes "bind(" ∷ codes "listen(" ∷ codes "accept(" ∷ [])
      ∷ code_card (codes "code-udp")
          (codes "server/src/udp_telemetry.c · socket UDP, recvfrom, sendto") udp mono_s
          (codes "socket(" ∷ codes "bind(" ∷ codes "recvfrom(" ∷ codes "sendto(" ∷ [])
      ∷ code_card (codes "code-state")
          (codes "main.c, state.c, tcp_operator.c · señales, mutex y un hilo por cliente") state
          mono_s
          (codes "SIGPIPE"
            ∷ codes "shutdown("
            ∷ codes "pthread_mutex"
            ∷ codes "pthread_create"
            ∷ codes "pthread_detach"
            ∷ [])
      ∷ code_card (codes "dockerfile")
          (codes "Dockerfile · dos etapas: gcc compila, Debian slim ejecuta")
          (split b'\n' (report (codes "Dockerfile"))) mono
          (codes "FROM" ∷ codes "COPY --from" ∷ codes "EXPOSE" ∷ codes "HEALTHCHECK" ∷ [])
      ∷ code_card (codes "docker-ps") (codes "En la instancia EC2: docker ps")
          (split b'\n' (capture (codes "docker-ps.txt"))) mono_s
          (codes "healthy" ∷ codes "114MB" ∷ [])
      ∷ code_card (codes "nslookup") (codes "nslookup telemetria.digitdeck.co")
          (split b'\n' (capture (codes "nslookup.txt"))) mono (codes "100.25.236.127" ∷ [])
      ∷ []
