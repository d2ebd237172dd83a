-- ===== src/Publisher.antt =====
-- internal/event/publisher.go: what becomes of the calls of Publish, which `World.published` lists.
use continuum_plugin_bookwar.Prelude.{
  ℕ, ◌+◌, ◌≡◌, String, Option, none, some, List, [], ◌∷◌, ◌++◌, Bytes, length, length-append, arith,
}
use continuum_plugin_bookwar.World.{Message}

-- a line of the log
pub data Warning : Type 0 where
  host_not_bound : String → Warning
  publish_failed : String → Bytes → Warning

-- the events that the host has, and the log
pub record Hub : Type 0 where
  pub events : List Message
  pub log : List Warning

-- the error of PublishEvent, for a bound host
pub record Publisher : Type 0 where
  pub host : Option (Message → Option Bytes)

-- what follows the call of the host
handed_over : Message → Option Bytes → Hub → Hub
handed_over m none h = record h { events = h.events ++ m ∷ [] }
handed_over m (some e) h = record h { log = h.log ++ publish_failed m.name e ∷ [] }

publish_to : Option (Message → Option Bytes) → Message → Hub → Hub
unfolding handed_over
publish_to none m h = record h { log = h.log ++ host_not_bound m.name ∷ [] }
publish_to (some host) m h = handed_over m (host m) h

-- Publish; it reports no error
unfoldable publish_event : Publisher → Message → Hub → Hub
unfolding publish_to
publish_event p m h = publish_to p.host m h

-- the calls, in their order
publish_each : Publisher → List Message → Hub → Hub
unfolding publish_event
publish_each p [] h = h
publish_each p (m ∷ ms) h = publish_each p ms (publish_event p m h)

-- Between two states so many calls were answered, each by one event or one line of the log.
record Accounts (n : ℕ) (h k : Hub) : Type 0 where
  total : length k.events + length k.log ≡ n + (length h.events + length h.log)

handed_over-Accounts : (m : Message) (o : Option Bytes) (h : Hub) → Accounts 1 h (handed_over m o h)
unfolding handed_over
handed_over-Accounts m none h = record { total = omega (arith, length-append h.events) }
handed_over-Accounts m (some e) h = record { total = omega (arith, length-append h.log) }

publish_to-Accounts :
    (o : Option (Message → Option Bytes)) (m : Message) (h : Hub) → Accounts 1 h (publish_to o m h)
unfolding publish_to
publish_to-Accounts none m h = record { total = omega (arith, length-append h.log) }
publish_to-Accounts (some host) m h = handed_over-Accounts m (host m) h

-- Each call of Publish ends as one event of the host or as one line of the log.
publish_each-Accounts :
    (p : Publisher) (ms : List Message) (h : Hub) → Accounts (length ms) h (publish_each p ms h)
unfolding publish_each publish_event
publish_each-Accounts p [] h = record { total = omega arith }
publish_each-Accounts p (m ∷ ms) h =
    let first = publish_to-Accounts p.host m h in
    let rest = publish_each-Accounts p ms (publish_to p.host m h) in
    record { total = omega (arith, first.total, rest.total) }
