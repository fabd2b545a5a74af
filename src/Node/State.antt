-- ===== src/Node/State.antt =====
-- node/node.py: the constants, the attributes of `Node`, and what a run shows to the network.
-- The attributes `server` and `interval` only reach getaddrinfo and time.sleep, so they are not
-- fields; `udp` says whether the socket is open; `state` is the record `Sim`.
use telematica_telemetria.Base.{ℕ, Bool, true, false, Option, none, List, [], ◌∷◌, not, ◌&&◌}
use telematica_telemetria.Base.Text.{Text, Bytes, codes}

-- The operations on Python floats that the simulation uses. `hundredths n` is the literal n/100,
-- and `format d x` is `f"{x:.df}"`.
pub record FloatOps (F : Type 0) : Type 0 where
  pub lt : F → F → Bool
  pub add : F → F → F
  pub hundredths : ℕ → F
  pub format : ℕ → F → Text

-- The dictionary `self.state`.
pub record Sim (F : Type 0) : Type 0 where
  pub temp : F
  pub hum : F
  pub energy : F
  pub vib : F

pub record Node (F : Type 0) : Type 0 where
  pub id : Text
  pub location : Text
  pub anomaly_rate : F
  pub force_alert : Option Text
  pub seq : ℕ
  pub sent : ℕ
  pub nacks : ℕ
  pub registered : Bool
  pub running : Bool
  pub ip : Option Text
  pub udp : Bool
  pub sim : Sim F

-- What leaves the node or comes back to it, as the lines that it logs tell.
pub data Event : Type 0 where
  tcp_sent : Text → Bytes → Event
  tcp_reply : Text → Event
  bye_sent : Text → Bytes → Event
  bye_reply : Text → Event
  udp_sent : Bytes → Event
  udp_failed : Event
  udp_reply : Text → Event
  waited : ℕ → Event

-- A node and the events so far, the latest first.
pub record World (F : Type 0) : Type 0 where
  pub node : Node F
  pub open node use *
  pub trace : List Event

-- How a call ended: it returned, it raised, or it waits for what the environment has not yet done.
pub data Exception : Type 0 where
  os_error value_error type_error overflow_error : Exception

pub data Exit : Type 0 where
  returned : Exit
  raised : Exception → Exit
  waiting : Exit

abbrev pub vars : List Text
vars = codes "TEMP" ∷ codes "HUM" ∷ codes "ENERGY" ∷ codes "VIB" ∷ codes "STATUS" ∷ []

-- `Node.__init__`
unfoldable pub init : {F : Type 0} → FloatOps F → Text → Text → F → Option Text → Node F
init fl node_id location anomaly_rate force_alert = record {
  id = node_id;
  location = location;
  anomaly_rate = anomaly_rate;
  force_alert = force_alert;
  seq = 0;
  sent = 0;
  nacks = 0;
  registered = false;
  running = true;
  ip = none;
  udp = false;
  sim = record {
    temp = fl.hundredths 2400;
    hum = fl.hundredths 5500;
    energy = fl.hundredths 120000;
    vib = fl.hundredths 150;
  };
}

module _ {F : Type 0} where
  -- One more event.
  abbrev pub emit : Event → World F → World F
  emit e w = record w { trace = e ∷ w.trace }

  -- `stop`, called by a signal; `arrives` says whether there is one.
  unfoldable pub stop : Bool → World F → World F
  stop arrives w = record w { node = record w.node { running = w.running && not arrives } }
