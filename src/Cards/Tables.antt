-- ===== src/Cards/Tables.antt =====
-- docs/video/edicion/tarjetas.py: the cards of the report's tables.
use telematica_telemetria.Base.{List, [], ◌∷◌}
use telematica_telemetria.Base.Text.{codes}
use telematica_telemetria.Cards.Draw.{Card, table_card}

abbrev pub tabla_errores : Card
tabla_errores =
    table_card (codes "tabla-errores") (codes "Códigos de error de TLP/1.0")
      (codes "Código" ∷ codes "Texto" ∷ codes "Cuándo" ∷ [])
      ((codes "100" ∷ codes "BAD_FORMAT" ∷ codes "Faltan campos" ∷ [])
        ∷ (codes "101" ∷ codes "UNKNOWN_COMMAND" ∷ codes "Tipo de mensaje desconocido" ∷ [])
        ∷ (codes "102" ∷ codes "UNKNOWN_NODE" ∷ codes "El nodo consultado no existe" ∷ [])
        ∷ (codes "103" ∷ codes "BAD_PARAM" ∷ codes "Parámetro inválido" ∷ [])
        ∷ (codes "104"
            ∷ codes "NOT_REGISTERED"
            ∷ codes "Telemetría sin REGISTER (viaja por UDP)"
            ∷ [])
        ∷ (codes "105" ∷ codes "TOO_LONG" ∷ codes "Línea de más de 512 bytes" ∷ [])
        ∷ (codes "106" ∷ codes "SERVER_FULL" ∷ codes "Ya hay 64 nodos" ∷ [])
        ∷ [])
      (200 ∷ 420 ∷ 900 ∷ [])

abbrev pub tabla_transporte : Card
tabla_transporte =
    table_card (codes "tabla-transporte") (codes "Transporte elegido por servicio")
      (codes "Servicio" ∷ codes "Transporte" ∷ codes "Por qué" ∷ [])
      ((codes "Telemetría periódica"
          ∷ codes "UDP 5000"
          ∷ codes "5 datagramas cada 2 s; perder uno no importa; seq cuenta pérdidas"
          ∷ [])
        ∷ (codes "Registro del nodo"
            ∷ codes "TCP 5001"
            ∷ codes "Necesita el OK|REGISTERED confirmado"
            ∷ [])
        ∷ (codes "Consultas del operador"
            ∷ codes "TCP 5001"
            ∷ codes "Respuestas largas, en orden y completas"
            ∷ [])
        ∷ (codes "Alertas al operador"
            ∷ codes "TCP 5001"
            ∷ codes "Una alerta perdida es un incidente sin atender"
            ∷ [])
        ∷ (codes "Interfaz web"
            ∷ codes "HTTP 8080"
            ∷ codes "Requisito del enunciado; solo lectura"
            ∷ [])
        ∷ [])
      (430 ∷ 260 ∷ 900 ∷ [])

abbrev pub tabla_pruebas : Card
tabla_pruebas =
    table_card (codes "tabla-pruebas") (codes "Resultados medidos")
      (codes "Prueba" ∷ codes "Resultado" ∷ [])
      ((codes "tests/e2e.sh contra telemetria.digitdeck.co"
          ∷ codes "20 de 20 comprobaciones en verde"
          ∷ [])
        ∷ (codes "loss_test.py, 500 datagramas desde Medellín"
            ∷ codes "500 recibidos, 0 perdidos, 478 msg/s"
            ∷ [])
        ∷ (codes "loss_test.py local con 10 huecos deliberados"
            ∷ codes "9 de 10 detectados (el último no se puede distinguir)"
            ∷ [])
        ∷ (codes "docker restart con nodo activo"
            ∷ codes "5 NACK|104, REGISTER y OK|REGISTERED en 11 s"
            ∷ [])
        ∷ (codes "Datagramas basura y línea TCP de 700 bytes"
            ∷ codes "Contados como inválidos; el servidor sigue"
            ∷ [])
        ∷ [])
      (860 ∷ 800 ∷ [])

abbrev pub tabla_capas : Card
tabla_capas =
    table_card (codes "tabla-capas") (codes "Qué añade cada capa")
      (codes "Capa" ∷ codes "Qué se vio en la captura" ∷ [])
      ((codes "Aplicación (TLP)"
          ∷ codes "TELEMETRY|NODE12|1|TEMP|24.5 en los bytes del datagrama"
          ∷ [])
        ∷ (codes "Transporte UDP"
            ∷ codes "Puertos 49921 a 5000, longitud 37; sin conexión ni confirmación"
            ∷ [])
        ∷ (codes "Transporte TCP"
            ∷ codes "SYN, SYN-ACK, ACK; seq y ack por byte; 85 ms de ida y vuelta"
            ∷ [])
        ∷ (codes "Red (IP)" ∷ codes "192.168.58.130 a 100.25.236.127; NAT del router; TTL 128" ∷ [])
        ∷ (codes "DNS" ∷ codes "Consulta A y respuesta 100.25.236.127 con TTL 260 s" ∷ [])
        ∷ [])
      (420 ∷ 1240 ∷ [])

abbrev pub tables : List Card
tables = tabla_errores ∷ tabla_transporte ∷ tabla_pruebas ∷ tabla_capas ∷ []
