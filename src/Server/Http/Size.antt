-- ===== src/Server/Http/Size.antt =====
-- server/src/http.c: `build_status_json` and its buffer.
use telematica_telemetria.Base.{
  ℕ, ◌+◌, ◌-◌, ◌<◌, true, false, Option, some, ◌>>=◌, List, [], ◌∷◌, ◌++◌, ◌≡◌, refl, arith, ap,
  ◌∙◌, sym, ltb, if◌then◌else◌, length, length-append, append_assoc, append-nil,
}
use mathlib.Core.Path.{subst}
use telematica_telemetria.Base.Text.{Text, codes}
use telematica_telemetria.Server.Slots.{Slot, cut}
use telematica_telemetria.Server.Alerts.{snapshot}
use telematica_telemetria.Server.State.{Server}
use telematica_telemetria.Server.Table.{cut_all}
use telematica_telemetria.Server.Http.{
  Json, put, server_json, node_json, measure_json, alert_json, put_rows, put_measure, put_node,
  put_alert_row, used_slots, print_status, build_status_json, sent_back,
}

-- a buffer that has had room for all of a text
abbrev whole : Text → Json
whole t = record { used = length t; text = t }

put_fits :
    (cap : ℕ) (t piece : Text)
    → length (t ++ piece) < cap
    → put cap piece (whole t) ≡ some (whole (t ++ piece))
unfolding put
put_fits cap t piece h =
    let sum = length-append t piece in
    let room : ltb cap (length t) ≡ false = ground arith in
    let all : cut (cap - length t) piece ≡ piece = cut_all (cap - length t) piece (omega arith) in
    rw (room, all, sum) refl

-- the rows of a loop, one behind the other
abbrev pub rows_text : {A : Type 0} → (Text → A → Text) → Text → List A → Text
rows_text row comma [] = []
rows_text row comma (x ∷ xs) = row comma x ++ rows_text row (codes ",") xs

put_rows_fits :
    (cap now : ℕ) {A : Type 0} (row : Text → A → Json → Option Json) (text : Text → A → Text)
    → ((comma : Text) (x : A) (t : Text)
        → length (t ++ text comma x) < cap
        → row comma x (whole t) ≡ some (whole (t ++ text comma x)))
    → (comma : Text) (xs : List A) (t : Text) → length (t ++ rows_text text comma xs) < cap
    → put_rows cap now row comma xs (whole t) ≡ some (whole (t ++ rows_text text comma xs))
unfolding put_rows
put_rows_fits cap now row text fits comma [] t h = ap (λ u. some (whole u)) (sym (append-nil t))
put_rows_fits cap now row text fits comma (x ∷ xs) t h =
    let rest = rows_text text (codes ",") xs in
    let apart = append_assoc t (text comma x) rest in
    let sum = length-append (t ++ text comma x) rest in
    let total : length (t ++ text comma x) + length rest < cap =
      subst (λ n. n < cap) (sym (ap length apart) ∙ sum) h in
    let room : ltb (length t) cap ≡ true = ground (arith, length-append t (text comma x)) in
    rw (put_rows, room)
      (ap (λ o. o >>= put_rows cap now row (codes ",") xs) (fits comma x t (omega arith))
        ∙ put_rows_fits cap now row text fits (codes ",") xs (t ++ text comma x)
            (omega (arith, total, sum))
        ∙ ap (λ u. some (whole u)) apart)

-- two prints, one behind the other
then_fits :
    (cap : ℕ) (f g : Json → Option Json) (t u v : Text)
    → (length (t ++ u) < cap → f (whole t) ≡ some (whole (t ++ u)))
    → (length ((t ++ u) ++ v) < cap → g (whole (t ++ u)) ≡ some (whole ((t ++ u) ++ v)))
    → length (t ++ (u ++ v)) < cap
    → (f (whole t) >>= g) ≡ some (whole (t ++ (u ++ v)))
then_fits cap f g t u v hf hg h =
    let apart = append_assoc t u v in
    let size : length ((t ++ u) ++ v) < cap = subst (λ (w : Text). length w < cap) (sym apart) h in
    ap (λ o. o >>= g) (hf (omega (arith, size, length-append (t ++ u) v)))
    ∙ hg size
    ∙ ap (λ w. some (whole w)) apart

-- a node with its measures
abbrev pub node_text : ℕ → Text → Slot → Text
node_text now comma n =
    node_json now comma n ++ (rows_text (measure_json now) [] n.vars ++ codes "]}")

-- the whole answer
abbrev pub status_text : ℕ → Server → Text
status_text now s =
    server_json now s
    ++ (rows_text (node_text now) [] (used_slots s.slots)
        ++ (codes "],\"alerts\":["
            ++ (rows_text (alert_json now) [] (snapshot 20 s.ring) ++ codes "]}")))

module _ (cap now : ℕ) where
  put_node_fits :
      (comma : Text) (n : Slot) (t : Text)
      → length (t ++ node_text now comma n) < cap
      → put_node cap now comma n (whole t) ≡ some (whole (t ++ node_text now comma n))
  unfolding put_node put_measure
  put_node_fits comma n t =
      let node = node_json now comma n in
      let rows = rows_text (measure_json now) [] n.vars in
      let measures = put_rows cap now (put_measure cap now) [] n.vars in
      then_fits cap (put cap node) (λ j. measures j >>= put cap (codes "]}")) t node
        (rows ++ codes "]}") (put_fits cap t node)
        (then_fits cap measures (put cap (codes "]}")) (t ++ node) rows (codes "]}")
          (put_rows_fits cap now (put_measure cap now) (measure_json now)
            (λ comma m t. put_fits cap t (measure_json now comma m)) [] n.vars (t ++ node))
          (put_fits cap ((t ++ node) ++ rows) (codes "]}")))

  print_status_fits :
      (s : Server)
      → length (status_text now s) < cap
      → print_status cap now s (whole []) ≡ some (whole (status_text now s))
  unfolding print_status put_alert_row
  print_status_fits s =
      let head = server_json now s in
      let nodes = rows_text (node_text now) [] (used_slots s.slots) in
      let mid = codes "],\"alerts\":[" in
      let alerts = rows_text (alert_json now) [] (snapshot 20 s.ring) in
      let last = codes "]}" in
      let put_nodes = put_rows cap now (put_node cap now) [] (used_slots s.slots) in
      let put_alerts = put_rows cap now (put_alert_row cap now) [] (snapshot 20 s.ring) in
      let t₁ = head ++ nodes in
      let t₂ = t₁ ++ mid in
      then_fits cap (put cap head)
        (λ j. put_nodes j >>= λ j₁. put cap mid j₁ >>= λ j₂. put_alerts j₂ >>= put cap last) [] head
        (nodes ++ (mid ++ (alerts ++ last))) (put_fits cap [] head)
        (then_fits cap put_nodes (λ j₁. put cap mid j₁ >>= λ j₂. put_alerts j₂ >>= put cap last)
          head nodes (mid ++ (alerts ++ last))
          (put_rows_fits cap now (put_node cap now) (node_text now) put_node_fits []
            (used_slots s.slots) head)
          (then_fits cap (put cap mid) (λ j₂. put_alerts j₂ >>= put cap last) t₁ mid
            (alerts ++ last) (put_fits cap t₁ mid)
            (then_fits cap put_alerts (put cap last) t₂ alerts last
              (put_rows_fits cap now (put_alert_row cap now) (alert_json now)
                (λ comma a t. put_fits cap t (alert_json now comma a)) [] (snapshot 20 s.ring) t₂)
              (put_fits cap (t₂ ++ alerts) last))))

  -- Where the whole answer and a NUL fit into the buffer, it is left there, and its length is returned.
  pub build_fits :
      (s : Server)
      → length (status_text now s) < cap
      → build_status_json cap now s ≡ some (length (status_text now s), status_text now s)
  unfolding build_status_json
  build_fits s h =
      let within : ltb (length (status_text now s)) cap ≡ true = ground arith in
      ap (λ o. o >>= λ j. some (sent_back cap now j)) (print_status_fits s h)
      ∙ ap (λ b. some (if b then length (status_text now s) else cap - 1, status_text now s)) within
