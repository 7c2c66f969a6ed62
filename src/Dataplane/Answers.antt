-- ===== src/Dataplane/Answers.antt =====
-- The requests of crates/ub-dataplane/src/lib.rs that wait for a response.
use unibus_toy.Base.Assoc.{number_key, insert as map_insert}
use unibus_toy.Core.Verb.{Verb}
